-- ===== src/Recordings/PathSafety.antt =====
-- src/recordings/path-safety.ts: `resolveSafe`. What it uses of node's `path.posix` is a parameter.
pub mod Place
pub mod Walk
pub mod Render
pub mod Below
pub mod Confined
use Prim.Native.Char.{Char, code}
use Prim.Native.String
use text.Mathlib.Text.{starts_with}
use reolink_station.Prelude.{
  ℕ, String, Bool, true, false, not, ◌&&◌, ◌||◌, Option, none, some, ◌≡◌, ◌==◌, same_text,
  join_text, if◌then◌else◌,
}
use reolink_station.Prelude.Split.{is_empty}
use reolink_station.Http.{Result, ok, err, forbidden}
use reolink_station.Recordings.PathSafety.Place.{place, rendered, starts_slash, ends_slash, slash}

-- `path.posix`, as documented, for absolute paths: `normalize` resolves the segments "." and ".." and
-- runs of slashes and keeps a slash at the end, and `join` normalizes its arguments with a slash
-- between them, without the empty ones.
pub record PosixPath : Type 0 where
  pub normalize : String → String
  pub join : String → String → String
  pub is_absolute : String → Bool
  pub is_absolute_lem : (p : String) → is_absolute p ≡ starts_slash p
  pub normalize_lem :
      (p : String) → starts_slash p ≡ true → normalize p ≡ rendered (place p) (ends_slash p)
  pub join_lem :
      (a b : String)
      → is_empty a ≡ false
      → join a b
        ≡ (if is_empty b then normalize a else normalize (join_text a (String.◌∷◌ slash b)))

-- The argument `relative`, which a request may also leave out or give another type.
pub data Relative : Type 0 where
  missing not_text : Relative
  given : String → Relative

-- `.replace(/\/+$/, '')`
unfoldable pub strip_slashes : String → String
strip_slashes String.[] = ""
strip_slashes (String.◌∷◌ c s) =
    let rest = strip_slashes s in if code c == b'/' && is_empty rest then "" else String.◌∷◌ c rest

-- `s || '/'`
unfoldable pub or_root : String → String
or_root s = if is_empty s then "/" else s

module _ (path : PosixPath) where
  -- from `base` and the text `rel` on
  unfoldable pub resolve_in : String → String → Result String
  resolve_in base rel =
      if path.is_absolute rel
      then err forbidden
      else let resolved = path.normalize (path.join base rel) in
        let prefix = if same_text base "/" then "/" else join_text base "/" in
        if not (same_text resolved base) && not (starts_with resolved prefix)
        then err forbidden
        else ok resolved

  unfoldable pub resolve_safe : String → Relative → Result String
  unfolding resolve_in strip_slashes or_root
  resolve_safe base_path not_text = err forbidden
  resolve_safe base_path missing =
      resolve_in (or_root (strip_slashes (path.normalize base_path))) ""
  resolve_safe base_path (given rel) =
      resolve_in (or_root (strip_slashes (path.normalize base_path))) rel
