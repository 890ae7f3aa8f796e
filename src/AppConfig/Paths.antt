-- ===== src/AppConfig/Paths.antt =====
-- Go's `path.Clean` on absolute paths, and the overlap of mount paths
-- (internal/appconfig/config.go).
pub mod Overlap
use Prim.Native.Char.{code}
use Prim.Native.String.{String}
use mathlib.Core.List.{tail, reverse}
use self_hosted_deployer.Common.{
  ℕ, Bool, true, false, List, [], ◌∷◌, ◌≡◌, refl, not, ◌&&◌, ◌||◌, ◌==◌, is_empty, nat_eq,
  has_prefix, concat, if◌then◌else◌,
}

-- strings.Split(s, "/"), the first part begun in reverse: the parts of `begun` and `s` together.
abbrev extend_first : String → List String → List String
extend_first s [] = s ∷ []
extend_first s (part ∷ parts) = concat s part ∷ parts

unfoldable pub split_slash : String → List String
split_slash String.[] = "" ∷ []
split_slash (String.◌∷◌ c s) =
    let parts = split_slash s in
    if nat_eq (code c) b'/' then "" ∷ parts else extend_first (String.◌∷◌ c String.[]) parts

-- One component of the path against the components kept so far, the last one first.
abbrev push_component : String → List String → List String
push_component part kept =
    if is_empty part || part == "." then kept else if part == ".." then tail kept else part ∷ kept

abbrev clean_components : List String → List String → List String
clean_components kept [] = kept
clean_components kept (part ∷ parts) = clean_components (push_component part kept) parts

abbrev join_slash : List String → String
join_slash [] = ""
join_slash (part ∷ []) = concat "/" part
join_slash (part ∷ parts) = concat (concat "/" part) (join_slash parts)

abbrev or_root : String → String
or_root s = if is_empty s then "/" else s

-- path.Clean of an absolute path.
unfoldable pub clean_absolute : String → String
unfolding split_slash
clean_absolute p = or_root (join_slash (reverse (clean_components [] (split_slash p))))

-- path.IsAbs
unfoldable pub is_absolute : String → Bool
is_absolute p = has_prefix p "/"

-- mountPathsOverlap
unfoldable pub mount_paths_overlap : String → String → Bool
mount_paths_overlap left right =
    left == right || has_prefix left (concat right "/") || has_prefix right (concat left "/")

clean_absolute_run :
    (clean_absolute "/a//b/./c/../d/" ≡ "/a/b/d")
    × (clean_absolute "/" ≡ "/")
    × (clean_absolute "/.." ≡ "/")
unfolding clean_absolute
clean_absolute_run = (refl, refl, refl)
