-- ===== src/Source/Lister.antt =====
-- internal/source/lister.go and internal/s3fetcher/s3fetcher.go: the references of a bucket's listing.
-- The paginator of the S3 client is the list of what its pages turn out to be.
pub mod Listings
use s3nitor.Prelude.{
  ℕ, suc, String, str_eq, Bool, true, false, ◌||◌, Option, none, some, List, [], ◌∷◌, ◌++◌,
  if◌then◌else◌,
}
use s3nitor.Prelude.Int.{ℤ}
use s3nitor.Scanner.{Time, zero_time, GoError}
use s3nitor.Fallible.{Try, ok, err, ◌>>=◌}
use s3nitor.Config.{Config}
use s3nitor.Pipeline.Discover.{ObjectRef}

pub record S3Object : Type 0 where
  pub bucket : String
  pub key : String
  pub etag : String
  pub last_modified : Time
  pub size : ℤ

-- One entry of a page; the code reads the size without a test for nil.
pub record Content : Type 0 where
  pub key : Option String
  pub etag : Option String
  pub last_modified : Option Time
  pub size : ℤ

pub record S3Fetcher : Type 0 where
  pub static_credentials : Option (String × String)
  pub region : String
  pub base_endpoint : Option String
  pub use_path_style : Bool
  pub bucket : String
  pub prefix : String

-- The options that NewS3Fetcher sets on the client.
unfoldable new_s3_fetcher : Config → S3Fetcher
new_s3_fetcher cfg =
    let no_keys = str_eq cfg.s3_access_key "" || str_eq cfg.s3_secret_key "" in
    let no_endpoint = str_eq cfg.s3_endpoint "" in
    record {
      static_credentials = if no_keys then none else some (cfg.s3_access_key, cfg.s3_secret_key);
      region = if str_eq cfg.s3_region "" then "us-east-1" else cfg.s3_region;
      base_endpoint = if no_endpoint then none else some cfg.s3_endpoint;
      use_path_style = if no_endpoint then false else true;
      bucket = cfg.s3_bucket;
      prefix = cfg.s3_prefix;
    }

-- `aws.ToString` and `aws.ToTime`.
unfoldable pub or_empty : Option String → String
or_empty none = ""
or_empty (some s) = s

unfoldable pub or_zero : Option Time → Time
or_zero none = zero_time
or_zero (some t) = t

unfoldable pub object_of : String → Content → S3Object
unfolding or_empty or_zero
object_of bucket item = record {
  bucket = bucket;
  key = or_empty item.key;
  etag = or_empty item.etag;
  last_modified = or_zero item.last_modified;
  size = item.size;
}

unfoldable pub add_page : String → List S3Object → List Content → List S3Object
unfolding object_of
add_page bucket objects [] = objects
add_page bucket objects (item ∷ items) =
    add_page bucket (objects ++ object_of bucket item ∷ []) items

-- The loop over the pages, with the objects so far.
unfoldable pub list_pages : String → List S3Object → List (Try (List Content)) → Try (List S3Object)
unfolding add_page
list_pages bucket objects [] = ok objects
list_pages bucket objects (err e ∷ pages) = err e
list_pages bucket objects (ok items ∷ pages) =
    list_pages bucket (add_page bucket objects items) pages

unfoldable pub list_objects : S3Fetcher → List (Try (List Content)) → Try (List S3Object)
unfolding list_pages
list_objects f pages = list_pages f.bucket [] pages

unfoldable pub ref_of : S3Object → ObjectRef
ref_of o = record {
  bucket = o.bucket;
  key = o.key;
  version = o.etag;
  size = o.size;
  last_modified = o.last_modified;
}

-- The goroutine of Items: `sends n` tells whether the n-th send goes through before the context ends.
unfoldable pub send_refs : (ℕ → Bool) → ℕ → List S3Object → List ObjectRef
unfolding ref_of
send_refs sends n [] = []
send_refs sends n (o ∷ os) = elim (sends n) [
  | true ↦ ref_of o ∷ send_refs sends (suc n) os
  | false ↦ []
]

unfoldable pub items : S3Fetcher → (ℕ → Bool) → List (Try (List Content)) → Try (List ObjectRef)
unfolding list_objects send_refs
items f sends pages = list_objects f pages >>= λ objects. ok (send_refs sends 0 objects)
