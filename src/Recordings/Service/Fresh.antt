-- ===== src/Recordings/Service/Fresh.antt =====
-- What the caches of `RecordingsService` hold after files were deleted.
use mathlib.Core.Option as Option
use text.Mathlib.TextPositions.{starts_with-append}
use reolink_station.Prelude.{
  ℕ, String, Option, none, some, List, ◌≡◌, ◌⊎◌, inl, inr, refl, ap, ◌∙◌, subst, if_true,
}
use reolink_station.Prelude.JsMap
use reolink_station.Prelude.JsMap.{text_key}
use reolink_station.Http.{HttpException, Result, err, Result-cases}
use reolink_station.CameraProfiles.{Connection}
use reolink_station.Recordings.Cache
use reolink_station.Recordings.Cache.{Entry, TtlCache}
use reolink_station.Recordings.Cache.History.{invalidate-entry}
use reolink_station.Recordings.PathSafety.{PosixPath}
use reolink_station.Recordings.Remote.{Sftp, State, id_prefix, cache_key}
use reolink_station.Recordings.Service.{
  invalidated, conn, resolve_all, list_fresh, list_dir, stat_fresh, stat, with_connection,
  delete_loop, delete_files, prune_connected, prune,
}

missing-live :
    {T : Type 0} (key : String) (now : ℕ) (c : TtlCache T)
    → JsMap.get key c.store ≡ none
    → Cache.get key now c ≡ (none, c)
unfolding Cache.get
missing-live key now c h = rw (h, Cache.get) refl

invalidated-missing :
    {T : Type 0} (id rel : String) (c : TtlCache T)
    → JsMap.get (cache_key id rel) (Cache.invalidate (id_prefix id) c).store ≡ none
invalidated-missing id rel c =
    invalidate-entry (id_prefix id) (cache_key id rel) c
    ∙ if_true _ _ _ (starts_with-append (id_prefix id) rel)

module _ {S : Type 0} (path : PosixPath) (sftp : Sftp S)
    (profiles : String → Result (Option Connection)) where
  -- Neither a listing nor the status of a file is answered from the cache.
  abbrev pub IsFresh : String → State S → Type 0
  IsFresh id st =
      (now later : ℕ) (rel : String)
      → (list_dir path sftp profiles now later id rel st
          ≡ list_fresh path sftp profiles later id rel st)
        × (stat path sftp profiles now later id rel st
            ≡ stat_fresh path sftp profiles later id rel st)

  list_dir-missing :
      (now later : ℕ) (id rel : String) (st : State S)
      → JsMap.get (cache_key id rel) st.lists.store ≡ none
      → list_dir path sftp profiles now later id rel st
        ≡ list_fresh path sftp profiles later id rel st
  unfolding list_dir
  list_dir-missing now later id rel st h =
      let missing = missing-live (cache_key id rel) now st.lists h in
      rw (missing, list_dir)
        (ap (λ q. list_fresh path sftp profiles later id rel (record st { lists = q.1 })) missing)

  stat-missing :
      (now later : ℕ) (id rel : String) (st : State S)
      → JsMap.get (cache_key id rel) st.stats.store ≡ none
      → stat path sftp profiles now later id rel st ≡ stat_fresh path sftp profiles later id rel st
  unfolding stat
  stat-missing now later id rel st h =
      let missing = missing-live (cache_key id rel) now st.stats h in
      rw (missing, stat)
        (ap (λ q. stat_fresh path sftp profiles later id rel (record st { stats = q.1 })) missing)

  invalidated-IsFresh :
      {A : Type 0} (id : String) (out : A × State S) → IsFresh id (invalidated id out).1
  invalidated-IsFresh id (r, st) now later rel = (
    list_dir-missing now later id rel _ (invalidated-missing id rel st.lists),
    stat-missing now later id rel _ (invalidated-missing id rel st.stats),
  )

  -- Nothing happened but an exception, or the caches hold nothing of the profile.
  abbrev pub Forgotten : String → State S → Result ℕ × State S → Type 0
  Forgotten id st (r, st') = ((e : HttpException) × (r ≡ err e) × (st' ≡ st)) ⊎ IsFresh id st'

  delete_files-Forgotten :
      (id : String) (rels : List String) (st : State S)
      → Forgotten id st (delete_files path sftp profiles id rels st)
  unfolding delete_files
  delete_files-Forgotten id rels st = elim (Result-cases (conn path sftp profiles id)) [
    | inl (e, f) ↦ rw f (inl (e, refl, refl))
    | inr (c, f) ↦ elim (Result-cases (resolve_all path sftp profiles c.1 rels)) [
      | inl (e, g) ↦ rw (f, g) (inl (e, refl, refl))
      | inr (abses, g) ↦
          rw (f, g)
            (inr (
              invalidated-IsFresh id (
                with_connection path sftp profiles c.0 (delete_loop path sftp profiles c.0 abses 0)
                  st)))
    ]
  ]

  map-Forgotten :
      (id : String) (st : State S) (o : Option (Result ℕ × State S)) (out : Result ℕ × State S)
      → Option.map (invalidated id) o ≡ some out
      → Forgotten id st out
  map-Forgotten id st none out e = cc e
  map-Forgotten id st (some end) out e =
      let same : invalidated id end ≡ out = cc e in
      inr (subst (λ x. IsFresh id x.1) same (invalidated-IsFresh id end))

  prune-Forgotten :
      (fuel now days : ℕ) (id : String) (st : State S) (out : Result ℕ × State S)
      → prune path sftp profiles fuel now days id st ≡ some out
      → Forgotten id st out
  unfolding prune
  prune-Forgotten fuel now days id st out e = elim (Result-cases (conn path sftp profiles id)) [
    | inl (x, f) ↦
        let same : (err x, st) ≡ out = cc (rw (f, prune) at e) in
        subst (Forgotten id st) same (inl (x, refl, refl))
    | inr (c, f) ↦
        map-Forgotten id st (prune_connected path sftp profiles fuel now days c.0 c.1 st) out
          (rw (f, prune) at e)
  ]

  -- Whatever the outcome of `delete_files` and of `prune`, an error or a lost connection too: nothing
  -- happened but an exception, or afterwards no listing and no status of a file under the same id of
  -- a profile is answered from the caches, at any time.
  pub deletions-Forgotten :
      (fuel today days : ℕ) (id : String) (rels : List String) (st : State S)
      → Forgotten id st (delete_files path sftp profiles id rels st)
        × ((out : Result ℕ × State S)
            → prune path sftp profiles fuel today days id st ≡ some out
            → Forgotten id st out)
  deletions-Forgotten fuel today days id rels st =
      (delete_files-Forgotten id rels st, prune-Forgotten fuel today days id st)
