-- ===== src/Session/Storage.antt =====
-- The session of a page and the one that a reload finds.
use pikoci.Base.{String, Option, List, [], ◌∷◌, ◌≡◌, refl}
use pikoci.Session.{User, Store, restore, login, logout}

pub data Change : Type 0 where
  log_in : Option String → Option User → Change
  log_out : Change

unfoldable pub change : Store → Change → Store
change st (log_in jwt user) = login jwt user st
change st log_out = logout st

unfoldable pub changes : Store → List Change → Store
changes st [] = st
changes st (c ∷ cs) = changes (change st c) cs

-- A reload finds the session of the page.
abbrev pub IsInSync : Store → Type 0
IsInSync st = restore st.stored ≡ st.session

change-IsInSync : (st : Store) (c : Change) → IsInSync (change st c)
unfolding change login logout restore
change-IsInSync st (log_in jwt user) = refl
change-IsInSync st log_out = refl

-- After any logins and logouts, a reload finds the session that the page has, if it did before.
changes-IsInSync : (st : Store) (cs : List Change) → IsInSync st → IsInSync (changes st cs)
unfolding changes
changes-IsInSync st [] h = h
changes-IsInSync st (c ∷ cs) h = changes-IsInSync (change st c) cs (change-IsInSync st c)
