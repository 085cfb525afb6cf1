-- ===== src/Versions/Merge.antt =====
-- What the list knows of a version behind a merge.
use mathlib.Core.Path.{subst}
use pikoci.Base.{
  ℕ, Bool, true, false, ◌||◌, Option, none, some, List, [], ◌∷◌, ◌≡◌, refl, sym, ap, ◌∙◌, arith,
  inl, inr, if◌then◌else◌, ◌==◌, ==_iff, number_equality, contains, IsDistinct, Bool-cases,
}
use pikoci.Sort.{sort, insert}
use pikoci.Sort.Laws.{contains-sort}
use pikoci.Versions.{
  Version, version_ids, version_with, overlay, put, put_all, update_all, put_new, put_missing,
  or_old, newer, merge_poll, merge_more,
}

missing_with :
    (id : ℕ) (vs : List Version) → contains (version_ids vs) id ≡ false → version_with id vs ≡ none
unfolding contains
missing_with id [] h = refl
missing_with id (v ∷ vs) h = ground (arith, missing_with id vs)

put-with :
    (id : ℕ) (v : Version) (m : List Version)
    → version_with id (put v m) ≡ (if v.id == id then some v else version_with id m)
unfolding put
put-with id v [] = refl
put-with id v (w ∷ ws) = elim (Bool-cases (w.id == v.id)) [
  | inl e ↦ rw (e, (==_iff w.id v.id).0 e) (ground arith)
  | inr e ↦
      rw e (ground (arith, put-with id v ws, e, ==_iff w.id id, ==_iff v.id id, ==_iff w.id v.id))
]

put-contains :
    (id : ℕ) (v : Version) (m : List Version)
    → contains (version_ids (put v m)) id ≡ (contains (version_ids m) id || v.id == id)
unfolding put contains
put-contains id v [] = ground arith
put-contains id v (w ∷ ws) = ground (arith, put-contains id v ws)

pub put-IsDistinct :
    (v : Version) (m : List Version)
    → IsDistinct (version_ids m)
    → IsDistinct (version_ids (put v m))
unfolding put contains
put-IsDistinct v [] d = (refl, tt)
put-IsDistinct v (w ∷ ws) d = ground (arith, put-IsDistinct v ws, put-contains w.id v ws)

insert-with :
    (id : ℕ) (v : Version) (ws : List Version)
    → contains (version_ids ws) v.id ≡ false
    → version_with id (insert newer v ws) ≡ (if v.id == id then some v else version_with id ws)
unfolding insert contains
insert-with id v [] h = refl
insert-with id v (w ∷ ws) h = ground (arith, insert-with id v ws)

sort-with :
    (id : ℕ) (m : List Version)
    → IsDistinct (version_ids m)
    → version_with id (sort newer m) ≡ version_with id m
unfolding sort
sort-with id [] d = refl
sort-with id (v ∷ m) d =
    insert-with id v (sort newer m) (contains-sort newer (λ w. w.id) m v.id ∙ d.0)
    ∙ ap (λ o. if v.id == id then some v else o) (sort-with id m d.1)

-- What is known of a version when another account of it comes: a newer one, or a further one.
abbrev updated : Option Version → Option Version → Option Version
updated old none = old
updated old (some v) = some (overlay old v)

overlay_id : (o : Option Version) (v : Version) → (overlay o v).id ≡ v.id
unfolding overlay
overlay_id none v = refl
overlay_id (some w) v = refl

put_all-with :
    (id : ℕ) (vs m : List Version)
    → IsDistinct (version_ids vs)
    → version_with id (put_all vs m) ≡ or_old (version_with id m) (version_with id vs)
unfolding put_all or_old
put_all-with id [] m d = refl
put_all-with id (v ∷ vs) m d = elim (Bool-cases (v.id == id)) [
  | inl e ↦
      put_all-with id vs (put v m) d.1
      ∙ rw
          (
            e,
            missing_with id vs
                (subst (λ k. contains (version_ids vs) k ≡ false) ((==_iff v.id id).0 e) d.0),
            put-with id v m,
            e,
          )
          refl
  | inr e ↦ put_all-with id vs (put v m) d.1 ∙ rw (e, put-with id v m, e) refl
]

present_with :
    (id : ℕ) (m : List Version)
    → contains (version_ids m) id ≡ true
    → (w : Version) × (version_with id m ≡ some w)
unfolding contains
present_with id [] h = cc
present_with id (w ∷ m) h = elim (Bool-cases (w.id == id)) [
  | inl e ↦ (w, rw e refl)
  | inr e ↦ let (u, k) = present_with id m (ground (arith, h, e)) in (u, rw e k)
]

first_or :
    (b : Bool) (v : Version) (a c : Option Version)
    → or_old a (or_old (if b then some v else none) c) ≡ or_old (if b then some v else a) c
unfolding or_old
first_or true v a none = refl
first_or true v a (some w) = refl
first_or false v a none = refl
first_or false v a (some w) = refl

none_or : (o : Option Version) → or_old none o ≡ o
unfolding or_old
none_or none = refl
none_or (some v) = refl

-- A version that is there stays as it is.
kept_with :
    (id : ℕ) (v w : Version) (m : List Version)
    → version_with v.id m ≡ some w
    → version_with id m ≡ or_old (if v.id == id then some v else none) (version_with id m)
unfolding or_old
kept_with id v w m h = elim (Bool-cases (v.id == id)) [
  | inl e ↦
      let k : version_with id m ≡ some w =
        ap (λ i. version_with i m) (sym ((==_iff v.id id).0 e)) ∙ h in
      rw (e, k) refl
  | inr e ↦ rw e (sym (none_or (version_with id m)))
]

added_with :
    (id : ℕ) (v : Version) (m : List Version)
    → contains (version_ids m) v.id ≡ false
    → (if v.id == id then some v else version_with id m)
      ≡ or_old (if v.id == id then some v else none) (version_with id m)
unfolding or_old
added_with id v m h = elim (Bool-cases (v.id == id)) [
  | inl e ↦
      let k : version_with id m ≡ none =
        ap (λ i. version_with i m) (sym ((==_iff v.id id).0 e)) ∙ missing_with v.id m h in
      rw (e, k) refl
  | inr e ↦ rw e (sym (none_or (version_with id m)))
]

put_new-with :
    (id : ℕ) (v : Version) (m : List Version)
    → version_with id (put_new v m)
      ≡ or_old (if v.id == id then some v else none) (version_with id m)
unfolding put_new
put_new-with id v m = elim (Bool-cases (contains (version_ids m) v.id)) [
  | inl e ↦
      let (w, k) = present_with v.id m e in
      ap (λ b. version_with id (if b then m else put v m)) e ∙ kept_with id v w m k
  | inr e ↦
      ap (λ b. version_with id (if b then m else put v m)) e
      ∙ (put-with id v m ∙ added_with id v m e)
]

put_missing-with :
    (id : ℕ) (vs m : List Version)
    → version_with id (put_missing vs m) ≡ or_old (version_with id vs) (version_with id m)
unfolding put_missing
put_missing-with id [] m = sym (none_or (version_with id m))
put_missing-with id (v ∷ vs) m =
    put_missing-with id vs (put_new v m)
    ∙ (ap (or_old (version_with id vs)) (put_new-with id v m)
        ∙ first_or (v.id == id) v (version_with id vs) (version_with id m))

update_all-with :
    (id : ℕ) (vs m : List Version)
    → IsDistinct (version_ids vs)
    → version_with id (update_all vs m) ≡ updated (version_with id m) (version_with id vs)
unfolding update_all
update_all-with id [] m d = refl
update_all-with id (v ∷ vs) m d =
    let o = overlay (version_with v.id m) v in
    let p : version_with id (put o m) ≡ (if v.id == id then some o else version_with id m) =
      put-with id o m
      ∙ ap (λ i. if i == id then some o else version_with id m)
          (overlay_id (version_with v.id m) v) in
    update_all-with id vs (put o m) d.1
    ∙ (ap (λ q. updated q (version_with id vs)) p ∙ elim (Bool-cases (v.id == id)) [
      | inl e ↦
          let same = (==_iff v.id id).0 e in
          rw (e, missing_with id vs (subst (λ k. contains (version_ids vs) k ≡ false) same d.0))
            (ap (λ i. some (overlay (version_with i m) v)) same)
      | inr e ↦ rw e refl
    ])

put_all-IsDistinct :
    (vs m : List Version) → IsDistinct (version_ids m) → IsDistinct (version_ids (put_all vs m))
unfolding put_all
put_all-IsDistinct [] m d = d
put_all-IsDistinct (v ∷ vs) m d = put_all-IsDistinct vs (put v m) (put-IsDistinct v m d)

pub update_all-IsDistinct :
    (vs m : List Version) → IsDistinct (version_ids m) → IsDistinct (version_ids (update_all vs m))
unfolding update_all
update_all-IsDistinct [] m d = d
update_all-IsDistinct (v ∷ vs) m d =
    update_all-IsDistinct vs _ (put-IsDistinct (overlay (version_with v.id m) v) m d)

put_new-IsDistinct :
    (v : Version) (m : List Version)
    → IsDistinct (version_ids m)
    → IsDistinct (version_ids (put_new v m))
unfolding put_new
put_new-IsDistinct v m d = either_list (contains (version_ids m) v.id)
  where
    either_list : (b : Bool) → IsDistinct (version_ids (if b then m else put v m))
    either_list true = d
    either_list false = put-IsDistinct v m d

pub put_missing-IsDistinct :
    (vs m : List Version) → IsDistinct (version_ids m) → IsDistinct (version_ids (put_missing vs m))
unfolding put_missing
put_missing-IsDistinct [] m d = d
put_missing-IsDistinct (v ∷ vs) m d =
    put_missing-IsDistinct vs (put_new v m) (put_new-IsDistinct v m d)

pub by_id-IsDistinct : (vs : List Version) → IsDistinct (version_ids (put_all vs []))
by_id-IsDistinct vs = put_all-IsDistinct vs [] tt

by_id-with :
    (id : ℕ) (vs : List Version)
    → IsDistinct (version_ids vs)
    → version_with id (put_all vs []) ≡ version_with id vs
by_id-with id vs d = put_all-with id vs [] d ∙ none_or (version_with id vs)

-- The second, or else the first.
abbrev pub later {ℓ} : {A : Type ℓ} → Option A → Option A → Option A
later a none = a
later a (some b) = some b

-- The fields that the newer account leaves out are those of the older one.
abbrev pub after_poll : Option Version → Option Version → Option Version
after_poll old none = old
after_poll none (some v) = some v
after_poll (some old) (some v) = some (record {
  id = v.id;
  status = later old.status v.status;
  content = later old.content v.content;
})

or_old-later : {A : Type 0} (a b : Option A) → or_old a b ≡ later a b
unfolding or_old
or_old-later a none = refl
or_old-later a (some b) = refl

updated-after_poll : (old new : Option Version) → updated old new ≡ after_poll old new
unfolding overlay
updated-after_poll old none = refl
updated-after_poll none (some v) = refl
updated-after_poll (some old) (some v) =
    rw (or_old-later old.status v.status, or_old-later old.content v.content) refl

-- If no id stands twice in the list and none twice in a poll, then behind a poll each version has
-- the status and the content of the poll, and where the poll leaves one out that of the list, a
-- version that is new is there as polled, and one that is not polled as it was; behind a further
-- page each is as it was, or the first of its id in the page.
pub merges-with :
    (id : ℕ) (fresh more prev : List Version)
    → IsDistinct (version_ids prev)
    → IsDistinct (version_ids fresh)
    → (version_with id (merge_poll fresh prev)
        ≡ after_poll (version_with id prev) (version_with id fresh))
      × (version_with id (merge_more more prev)
          ≡ later (version_with id more) (version_with id prev))
unfolding merge_poll merge_more
merges-with id fresh more prev d f = (
  sort-with id (update_all fresh (put_all prev []))
        (update_all-IsDistinct fresh (put_all prev []) (by_id-IsDistinct prev))
      ∙ (update_all-with id fresh (put_all prev []) f
          ∙ (ap (λ o. updated o (version_with id fresh)) (by_id-with id prev d)
              ∙ updated-after_poll (version_with id prev) (version_with id fresh))),
  sort-with id (put_missing more (put_all prev []))
        (put_missing-IsDistinct more (put_all prev []) (by_id-IsDistinct prev))
      ∙ (put_missing-with id more (put_all prev [])
          ∙ (ap (or_old (version_with id more)) (by_id-with id prev d)
              ∙ or_old-later (version_with id more) (version_with id prev))),
)
