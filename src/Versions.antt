-- ===== src/Versions.antt =====
-- The versions of a resource (`ResourceVersions` in components/Resources.js): the list with its
-- polls and its pages, and the pin. What the user does, and the answers, are events.
pub mod Merge
pub mod Order
mod Tests
use pikoci.Base.{
  ℕ, zero, suc, Bool, true, false, not, ◌&&◌, ◌||◌, Option, none, some, List, [], ◌∷◌, ◌++◌, String,
  map, filter, find, or_empty, if◌then◌else◌, ◌==◌, number_equality, contains, ltb,
}
use pikoci.Sort.{sort, insert}

-- The fields of a version that an answer may leave out are optional.
pub record Version : Type 0 where
  pub id : ℕ
  pub status : Option String
  pub content : Option (List (String × String))  -- `version`

-- `resp`, with `meta` or without
pub record Answer : Type 0 where
  pub versions : Option (List Version)
  pub has_more : Bool
  pub oldest_id : Option ℕ

pub record Resource : Type 0 where
  pub pinned : Option ℕ
  pub webhook_token : Option String

-- A pin or its removal that waits for its answer.
pub data Request : Type 0 where
  pinning : ℕ → Request
  unpinning : Request

pub record Page : Type 0 where
  pub resource : Option Resource
  pub versions : List Version
  pub has_more : Bool
  pub oldest_id : Option ℕ
  pub fetching_more : Option (Option ℕ)  -- the request of the scroll that waits, by its `before`
  pub expanded : List ℕ
  pub waiting : List Request

abbrev pub version_ids : List Version → List ℕ
version_ids vs = map (λ v. v.id) vs

abbrev pub version_with : ℕ → List Version → Option Version
version_with id vs = find (λ v. v.id == id) vs

unfoldable pub or_old : {A : Type 0} → Option A → Option A → Option A
or_old old none = old
or_old old (some x) = some x

-- `{ ...old, ...v }`
unfoldable pub overlay : Option Version → Version → Version
overlay none v = v
overlay (some old) v = record {
  id = v.id;
  status = or_old old.status v.status;
  content = or_old old.content v.content;
}

-- `byId.set(v.id, v)`
unfoldable pub put : Version → List Version → List Version
put v [] = v ∷ []
put v (w ∷ ws) = if w.id == v.id then v ∷ ws else w ∷ put v ws

-- `new Map(prev.map(v => [v.id, v]))`, put behind what is there
unfoldable pub put_all : List Version → List Version → List Version
put_all [] m = m
put_all (v ∷ vs) m = put_all vs (put v m)

-- The loop of the poll.
unfoldable pub update_all : List Version → List Version → List Version
update_all [] m = m
update_all (v ∷ vs) m = update_all vs (put (overlay (version_with v.id m) v) m)

unfoldable pub put_new : Version → List Version → List Version
put_new v m = if contains (version_ids m) v.id then m else put v m

-- The loop of the pages.
unfoldable pub put_missing : List Version → List Version → List Version
put_missing [] m = m
put_missing (v ∷ vs) m = put_missing vs (put_new v m)

-- `sort((a, b) => b.id - a.id)`: whether the comparator is negative
unfoldable pub newer : Version → Version → Bool
newer a b = ltb b.id a.id

unfoldable pub merge_poll : List Version → List Version → List Version
merge_poll fresh prev = sort newer (update_all fresh (put_all prev []))

unfoldable pub merge_more : List Version → List Version → List Version
merge_more more prev = sort newer (put_missing more (put_all prev []))

-- The first page; without an answer nothing happens.
unfoldable pub first_page : Option Answer → Page → Page
first_page none s = s
first_page (some a) s = record s {
  versions = or_empty a.versions;
  has_more = a.has_more;
  oldest_id = a.oldest_id;
}

unfoldable pub polled : Option Answer → Page → Page
polled none s = s
polled (some a) s = record s { versions = merge_poll (or_empty a.versions) s.versions }

unfoldable pub is_idle : Option (Option ℕ) → Bool
is_idle none = true
is_idle (some _) = false

-- The handler of the scroll, near the end of the page.
unfoldable pub on_scroll : Page → Page
on_scroll s =
    if is_idle s.fetching_more && s.has_more
    then record s { fetching_more = some s.oldest_id }
    else s

unfoldable pub more_answered : Option Answer → Page → Page
more_answered none s = record s { fetching_more = none }
more_answered (some a) s = record s {
  versions = merge_more (or_empty a.versions) s.versions;
  has_more = a.has_more;
  oldest_id = a.oldest_id;
  fetching_more = none;
}

-- `{ ...prev, pinned_version_id }`; without a resource there is only the pin.
unfoldable pub set_pin : Option ℕ → Option Resource → Option Resource
set_pin pin none = some (record { pinned = pin; webhook_token = none })
set_pin pin (some r) = some (record r { pinned = pin })

unfoldable pub is_pinned : ℕ → Option Resource → Bool
is_pinned id none = false
is_pinned id (some r) = elim r.pinned [ none ↦ false | some p ↦ p == id ]

-- `onPinVersion`, up to its `await`
unfoldable pub on_pin_version : ℕ → Page → Page
on_pin_version id s = record s {
  waiting = s.waiting ++ (if is_pinned id s.resource then unpinning else pinning id) ∷ [];
}

unfoldable pub do_request : Request → Page → Page
do_request (pinning id) s = record s { resource = set_pin (some id) s.resource }
do_request unpinning s = record s { resource = set_pin none s.resource }

-- The answer to the first request that waits.
unfoldable pub request_answered : Bool → List Request → Page → Page
request_answered good [] s = s
request_answered good (r ∷ rs) s =
    let t : Page = record s { waiting = rs } in if good then do_request r t else t

-- `toggleExpand`
unfoldable pub toggle_expand : ℕ → List ℕ → List ℕ
toggle_expand id ids = if contains ids id then filter (λ i. not (i == id)) ids else id ∷ ids

pub data Event : Type 0 where
  resource_answered : Resource → Event
  paged : Option Answer → Event  -- the first page
  poll_answered : Option Answer → Event
  scrolled : Event
  scroll_answered : Option Answer → Event
  pin_pressed : ℕ → Event
  unpin_pressed : Event
  answered : Bool → Event
  row_pressed : ℕ → Event

unfoldable pub step : Event → Page → Page
step (resource_answered r) s = record s { resource = some r }
step (paged a) s = first_page a s
step (poll_answered a) s = polled a s
step scrolled s = on_scroll s
step (scroll_answered a) s = if is_idle s.fetching_more then s else more_answered a s
step (pin_pressed id) s = on_pin_version id s
step unpin_pressed s = record s { waiting = s.waiting ++ unpinning ∷ [] }
step (answered good) s = request_answered good s.waiting s
step (row_pressed id) s = record s { expanded = toggle_expand id s.expanded }

unfoldable pub run : List Event → Page → Page
run [] s = s
run (e ∷ events) s = run events (step e s)

abbrev pub opened : Page
opened = record {
  resource = none;
  versions = [];
  has_more = false;
  oldest_id = none;
  fetching_more = none;
  expanded = [];
  waiting = [];
}
