-- ===== src/Tests/PlainPath.antt =====
-- An instance of what `resolve_safe` takes of `path.posix`, and the confinement at a concrete input.
use reolink_station.Prelude.{
  String, false, ◌≡◌, ◌↔◌, refl, join_text, if◌then◌else◌, if_true, if_false,
}
use reolink_station.Prelude.Split.{is_empty, split_at}
use reolink_station.Http.{ok, err, forbidden}
use reolink_station.Recordings.PathSafety.{
  PosixPath, given, resolve_safe, resolve_in, strip_slashes, or_root,
}
use reolink_station.Recordings.PathSafety.Place.{
  slash, segments, enter, walk, place, render, rendered, starts_slash, ends_slash, IsUnder,
}
use reolink_station.Recordings.PathSafety.Confined.{resolve_safe_iff}

abbrev normalize : String → String
normalize p = if starts_slash p then rendered (place p) (ends_slash p) else p

abbrev join : String → String → String
join a b =
    if is_empty a
    then normalize b
    else (if is_empty b then normalize a else normalize (join_text a (String.◌∷◌ slash b)))

abbrev pub plain_path : PosixPath
plain_path = record {
  normalize = normalize;
  join = join;
  is_absolute = starts_slash;
  is_absolute_lem = λ p. refl;
  normalize_lem = λ p h. if_true _ _ _ h;
  join_lem = λ a b h. if_false _ _ _ h;
}

confined : resolve_safe plain_path "/rec/" (given "2024/../a.mp4") ≡ ok "/rec/a.mp4"
unfolding resolve_safe resolve_in strip_slashes or_root rendered render place walk segments enter
    split_at is_empty starts_slash ends_slash
confined = refl

escaping : resolve_safe plain_path "/rec" (given "../recent/a.mp4") ≡ err forbidden
unfolding resolve_safe resolve_in strip_slashes or_root rendered render place walk segments enter
    split_at is_empty starts_slash ends_slash
escaping = refl

resolve_safe_iff_example :
    (resolve_safe plain_path "/rec/" (given "2024/../a.mp4") ≡ ok "/rec/a.mp4") ↔ (
      (starts_slash "2024/../a.mp4" ≡ false)
      × IsUnder (place "/rec/") (place "/rec//2024/../a.mp4")
      × ("/rec/a.mp4" ≡ rendered (place "/rec//2024/../a.mp4") (ends_slash "2024/../a.mp4")))
unfolding starts_slash
resolve_safe_iff_example = resolve_safe_iff plain_path "/rec/" "2024/../a.mp4" "/rec/a.mp4" refl
