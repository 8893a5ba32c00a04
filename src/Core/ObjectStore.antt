-- ===== src/Core/ObjectStore.antt =====
-- core/objectstore.py: raw output and reports by reference. The bytes are texts; the objects of the
-- bucket, and the files below the root, are a dict that the operations take and return.
use omniscan.Prelude.{String, ◌<>◌, ◌==◌, none, some, if◌then◌else◌}
use omniscan.Prelude.Text.{remove_prefix}
use omniscan.Prelude.Dict.{Dict, lookup, insert}
use omniscan.Prelude.Try.{Try, ok, raise, other_error}

-- The settings: the scheme of the URL, the prefix in the bucket, and the join of the root and a key.
pub record Location : Type 0 where
  pub scheme : String
  pub prefix : String
  pub join_root : String → String

-- The place of an object: its key in the bucket, or its path.
unfoldable pub place_of : Location → String → String
place_of l key = if l.scheme == "s3" then l.prefix <> key else l.join_root key

unfoldable pub put : Location → String → String → Dict String → String × Dict String
unfolding place_of
put l key data_ objects = ("obj://" <> key, insert (place_of l key) data_ objects)

unfoldable pub get_object : Location → String → Dict String → Try String
unfolding place_of remove_prefix
get_object l ref objects = elim (lookup (place_of l (remove_prefix "obj://" ref)) objects) [
  | none ↦ raise (other_error "no such object")
  | some data_ ↦ ok data_
]
