-- ===== src/Source/Lister/Listings.antt =====
-- lister.go: the references that are sent, against the pages of the listing.
use mathlib.Core.Path.{ap₂}
use s3nitor.Prelude.{
  ℕ, suc, ◌≡◌, refl, sym, ap, ◌∙◌, Option, none, some, String, Bool, true, Bool-cases, inl, inr,
  List, [], ◌∷◌, ◌++◌, map, append_assoc, append-nil,
}
use s3nitor.Scanner.{GoError, Time, zero_time}
use s3nitor.Fallible.{Try, ok, err}
use s3nitor.Pipeline.Discover.{ObjectRef}
use s3nitor.Source.Lister.{
  S3Object, Content, S3Fetcher, or_empty, or_zero, object_of, add_page, list_pages, list_objects,
  ref_of, send_refs, items,
}

-- The pages of a listing that meets no error.
abbrev pub good : List (List Content) → List (Try (List Content))
good pages = map ok pages

abbrev pub contents : List (List Content) → List Content
contents [] = []
contents (page ∷ pages) = page ++ contents pages

-- What stands in an answer, or what Go puts for what is missing.
abbrev pub or_blank : String → Option String → String
or_blank blank none = blank
or_blank blank (some s) = s

abbrev pub or_never : Option Time → Time
or_never none = zero_time
or_never (some t) = t

-- The reference of an entry: the bucket that is listed, and the entry's own key, size and time, with
-- its ETag as the version; a text that the answer leaves out is empty.
abbrev pub reference : S3Fetcher → Content → ObjectRef
reference f item = record {
  bucket = f.bucket;
  key = or_blank "" item.key;
  version = or_blank "" item.etag;
  size = item.size;
  last_modified = or_never item.last_modified;
}

ref_of-object_of :
    (f : S3Fetcher) (item : Content) → ref_of (object_of f.bucket item) ≡ reference f item
unfolding ref_of object_of or_empty or_zero
ref_of-object_of f item =
    rw (ref_of, object_of, blank item.key, blank item.etag, never item.last_modified) refl
  where
    blank : (o : Option String) → or_empty o ≡ or_blank "" o
    blank none = refl
    blank (some s) = refl

    never : (o : Option Time) → or_zero o ≡ or_never o
    never none = refl
    never (some t) = refl

references_of :
    (f : S3Fetcher) (items : List Content)
    → map (λ item. ref_of (object_of f.bucket item)) items ≡ map (reference f) items
references_of f [] = refl
references_of f (item ∷ items) = ap₂ ◌∷◌ (ref_of-object_of f item) (references_of f items)

add_page-map :
    (bucket : String) (objects : List S3Object) (page : List Content)
    → add_page bucket objects page ≡ objects ++ map (object_of bucket) page
unfolding add_page
add_page-map bucket objects [] = sym (append-nil objects)
add_page-map bucket objects (item ∷ page) =
    add_page-map bucket (objects ++ object_of bucket item ∷ []) page
    ∙ append_assoc objects (object_of bucket item ∷ []) (map (object_of bucket) page)

map-append_lem {ℓ κ} :
    {A : Type ℓ} {B : Type κ} (f : A → B) (xs ys : List A) → map f (xs ++ ys) ≡ map f xs ++ map f ys
map-append_lem f [] ys = refl
map-append_lem f (x ∷ xs) ys = ap (◌∷◌ (f x)) (map-append_lem f xs ys)

list_pages-good :
    (bucket : String) (objects : List S3Object) (pages : List (List Content))
    → list_pages bucket objects (good pages)
      ≡ ok (objects ++ map (object_of bucket) (contents pages))
unfolding list_pages
list_pages-good bucket objects [] = ap ok (sym (append-nil objects))
list_pages-good bucket objects (page ∷ pages) =
    list_pages-good bucket (add_page bucket objects page) pages
    ∙ ap ok (
        ap (λ xs. xs ++ map (object_of bucket) (contents pages)) (add_page-map bucket objects page)
        ∙ append_assoc objects (map (object_of bucket) page)
            (map (object_of bucket) (contents pages))
        ∙ ap (◌++◌ objects) (sym (map-append_lem (object_of bucket) page (contents pages))))

send_refs-prefix :
    (sends : ℕ → Bool) (n : ℕ) (os : List S3Object)
    → (rest : List ObjectRef) × (map ref_of os ≡ send_refs sends n os ++ rest)
unfolding send_refs
send_refs-prefix sends n [] = ([], refl)
send_refs-prefix sends n (o ∷ os) = elim (Bool-cases (sends n)) [
  | inr ended ↦ (map ref_of (o ∷ os), rw (ended, send_refs) refl)
  | inl on ↦
      let (rest, e) = send_refs-prefix sends (suc n) os in
      (rest, rw (on, send_refs) (ap (◌∷◌ (ref_of o)) e))
]

send_refs_all :
    (sends : ℕ → Bool) (n : ℕ) (os : List S3Object)
    → ((m : ℕ) → sends m ≡ true)
    → send_refs sends n os ≡ map ref_of os
unfolding send_refs
send_refs_all sends n [] on = refl
send_refs_all sends n (o ∷ os) on =
    rw (on n, send_refs) (ap (◌∷◌ (ref_of o)) (send_refs_all sends (suc n) os on))

map-map_lem {ℓ κ ν} :
    {A : Type ℓ} {B : Type κ} {C : Type ν} (g : B → C) (f : A → B) (xs : List A)
    → map g (map f xs) ≡ map (λ x. g (f x)) xs
map-map_lem g f [] = refl
map-map_lem g f (x ∷ xs) = ap (◌∷◌ (g (f x))) (map-map_lem g f xs)

-- If every page can be read, the references that are sent are those of the entries of all pages, one
-- for each and in their order, with the listed bucket, the entry's key, size and time, and its ETag as
-- the version: all of them if the context does not end, and otherwise a first part.
pub items_follow_pages :
    (f : S3Fetcher) (sends : ℕ → Bool) (pages : List (List Content))
    → (refs : List ObjectRef) × (items f sends (good pages) ≡ ok refs)
      × ((rest : List ObjectRef) × (map (reference f) (contents pages) ≡ refs ++ rest))
      × (((m : ℕ) → sends m ≡ true) → refs ≡ map (reference f) (contents pages))
unfolding items list_objects
items_follow_pages f sends pages =
    let objects = map (object_of f.bucket) (contents pages) in
    let both =
      map-map_lem ref_of (object_of f.bucket) (contents pages) ∙ references_of f (contents pages) in
    let (rest, e) = send_refs-prefix sends 0 objects in
    (
      send_refs sends 0 objects,
      rw (list_pages-good f.bucket [] pages) refl,
      (rest, sym both ∙ e),
      λ on. send_refs_all sends 0 objects on ∙ both,
    )

-- One page that cannot be read fails the whole listing, and no reference is sent.
items_fail :
    (f : S3Fetcher) (sends : ℕ → Bool) (pages : List (List Content)) (e : GoError)
    (later : List (Try (List Content)))
    → items f sends (good pages ++ err e ∷ later) ≡ err e
unfolding items list_objects
items_fail f sends pages e later = rw (failing f.bucket [] pages) refl
  where
    failing :
        (bucket : String) (objects : List S3Object) (ps : List (List Content))
        → list_pages bucket objects (good ps ++ err e ∷ later) ≡ err e
    failing bucket objects [] = refl
    failing bucket objects (p ∷ ps) = failing bucket (add_page bucket objects p) ps
