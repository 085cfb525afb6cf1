-- ===== src/Endpoints/Paths.antt =====
-- A path that is sent, split again at its slashes.
use pikoci.Base.{String, ◌≡◌, refl, ap, ◌∙◌, List, [], ◌∷◌, ◌++◌, map, All, number_equality}
use pikoci.Text.{Chars, codes, split}
use pikoci.Text.Split.{HasNo, push_all, push_all-nil, split-append}
use pikoci.Endpoints.{render}

-- The text has no slash in it.
abbrev pub HasNoSlash : Chars → Type 0
HasNoSlash = HasNo b'/'

-- What the slashes of a path leave of the parts `rest`.
unfoldable pub tail_parts : List String → List Chars
tail_parts [] = []
tail_parts (part ∷ parts) = split b'/' (codes part ++ render parts)

split-render_rest : (parts : List String) → split b'/' (render parts) ≡ [] ∷ tail_parts parts
unfolding split render tail_parts
split-render_rest [] = refl
split-render_rest (part ∷ parts) = refl

pub split-render :
    (front rest : List String)
    → All (λ part. HasNoSlash (codes part)) front
    → split b'/' (render (front ++ rest)) ≡ [] ∷ map codes front ++ tail_parts rest
unfolding split render
split-render [] rest h = split-render_rest rest
split-render (part ∷ parts) rest (n, h) =
    ap (λ q. [] ∷ q)
      (split-append b'/' (codes part) (render (parts ++ rest)) n
        ∙ ap (push_all (codes part)) (split-render parts rest h)
        ∙ push_all-nil (codes part) (map codes parts ++ tail_parts rest))
