-- ===== src/Tree/Links.antt =====
-- Laws of the objects of arrays, and what one pair of pushes does to a graph.
use pikoci.Base.{
  String, true, false, ◌||◌, Option, none, some, List, [], ◌∷◌, ◌++◌, if◌then◌else◌, ◌==◌,
  text_equality, contains, Option-cases, ◌≡◌, refl, arith, ==_iff, Bool-cases, inl, inr, ◌>>=◌,
}
use pikoci.Tree.{Links, links_of, has_links, clear, push, init}

pub >>=-eq-some {ℓ κ} :
    {A : Type ℓ} {B : Type κ} (m : Option A) (f : A → Option B) {b : B}
    → (m >>= f) ≡ some b
    → (a : A) × (m ≡ some a) × (f a ≡ some b)
>>=-eq-some none f h = cc
>>=-eq-some (some a) f h = (a, refl, h)

-- What a push onto an entry behind the first one leaves.
push-cons :
    (k v i : String) (l : List String) (d d' : Links)
    → push k v ((i, l) ∷ d) ≡ some d'
    → (i == k) ≡ false
    → (r : Links) × (push k v d ≡ some r) × (d' ≡ (i, l) ∷ r)
unfolding push
push-cons k v i l d d' h e = elim (Option-cases (push k v d)) [
  | inl n ↦ cc (rw (e, n) at h)
  | inr (r, s) ↦ (r, s, cc (rw (e, s) at h))
]

push-head :
    (k v i : String) (l : List String) (d d' : Links)
    → push k v ((i, l) ∷ d) ≡ some d'
    → (i == k) ≡ true
    → d' ≡ (i, l ++ v ∷ []) ∷ d
unfolding push
push-head k v i l d d' h e = cc (rw e at h)

pub links_of-push :
    (k v : String) (d d' : Links) (j : String)
    → push k v d ≡ some d'
    → links_of d' j ≡ (if k == j then links_of d k ++ v ∷ [] else links_of d j)
unfolding links_of
links_of-push k v [] d' j h = unfold push in cc
links_of-push k v ((i, l) ∷ d) d' j h = elim (Bool-cases (i == k)) [
  | inl e ↦ rw (push-head k v i l d d' h e) (ground (arith, ==_iff i k, ==_iff k j, ==_iff i j))
  | inr e ↦
      let (r, s, t) = push-cons k v i l d d' h e in
      rw t (ground (arith, ==_iff i k, ==_iff k j, ==_iff i j, links_of-push k v d r j s))
]

pub push_total :
    (k v : String) (d : Links) → has_links d k ≡ true → (d' : Links) × (push k v d ≡ some d')
unfolding push has_links
push_total k v [] h = cc
push_total k v ((j, l) ∷ d) h = elim (Bool-cases (j == k)) [
  | inl e ↦ ((j, l ++ v ∷ []) ∷ d, rw e)
  | inr e ↦ let r = push_total k v d (rw e at h) in ((j, l) ∷ r.0, rw (e, r.1))
]

pub has_links-push :
    (k v : String) (d d' : Links) (j : String)
    → push k v d ≡ some d'
    → has_links d' j ≡ has_links d j
unfolding has_links
has_links-push k v [] d' j h = unfold push in cc
has_links-push k v ((i, l) ∷ d) d' j h = elim (Bool-cases (i == k)) [
  | inl e ↦ rw (push-head k v i l d d' h e)
  | inr e ↦ let (r, s, t) = push-cons k v i l d d' h e in rw (t, has_links-push k v d r j s)
]

pub links_of-clear :
    (k : String) (d : Links) (j : String)
    → links_of (clear k d) j ≡ (if k == j then [] else links_of d j)
unfolding clear links_of
links_of-clear k [] j = ground arith
links_of-clear k ((i, l) ∷ d) j =
    ground (arith, ==_iff i k, ==_iff k j, ==_iff i j, links_of-clear k d j)

pub has_links-clear :
    (k : String) (d : Links) (j : String) → has_links (clear k d) j ≡ (k == j || has_links d j)
unfolding clear has_links
has_links-clear k [] j = ground arith
has_links-clear k ((i, l) ∷ d) j =
    ground (arith, ==_iff i k, ==_iff k j, ==_iff i j, has_links-clear k d j)

-- The arrays after the first loop: one for each name of the chain, all empty.
pub has_links-init :
    (chain : List String) (d : Links) (j : String)
    → has_links (init chain d) j ≡ (contains chain j || has_links d j)
unfolding init contains
has_links-init [] d j = refl
has_links-init (n ∷ chain) d j =
    ground (arith, has_links-init chain (clear n d) j, has_links-clear n d j)

pub links_of-init :
    (chain : List String) (d : Links) (j : String)
    → links_of d j ≡ []
    → links_of (init chain d) j ≡ []
unfolding init
links_of-init [] d j h = h
links_of-init (n ∷ chain) d j h =
    links_of-init chain (clear n d) j (ground (arith, links_of-clear n d j))

pub has_links_of_contains :
    (d : Links) (k v : String) → contains (links_of d k) v ≡ true → has_links d k ≡ true
unfolding has_links links_of contains
has_links_of_contains [] k v h = cc
has_links_of_contains ((j, l) ∷ d) k v h = ground (arith, has_links_of_contains d k v)

-- At first there is no edge, and exactly the names of the chain have an array.
pub no_links :
    (chain : List String) (k v : String) → contains (links_of (init chain []) k) v ≡ false
unfolding links_of contains
no_links chain k v = rw (links_of-init chain [] k refl) refl

pub has_links_start :
    (chain : List String) (k : String) → has_links (init chain []) k ≡ contains chain k
unfolding has_links
has_links_start chain k = ground (arith, has_links-init chain [] k)
