-- ===== src/Assets/Filled.antt =====
-- The way of a cache entry from a miss to its end (ensureCachedBaseImage): a stamped entry is a
-- verified download.
use bladerunner.Prelude.{
  Bool-cases, Check, Option, Result, Text, [], err, false, has_prefix, inl, inr, none, ok, refl,
  some, text_eq, true, ◌∙◌, ◌≡◌, ◌⊎◌,
}
use bladerunner.Assets.{
  CacheCalls, StampWrite, stamped, unstamped_failed, stamped_failed, try_remove, write_stamp,
  finalize_failed, unreadable_download, download_failed, sha256_mismatch, World, Conversion,
  unconverted, lost, converted, AssetError, Files, write, remove, equal_fold, after_conversion,
  qcow2_magic, ensure_raw_content, ensure_raw, raw_at, stamp_entry, finish_cached, fill_cache,
}
use bladerunner.Assets.Verified.{IsDiskOf, write-same, raw_at-disk}

-- `c` is the disk of some bytes with the digest `want`.
abbrev pub PinnedBy : World → Text → Text → Type 0
PinnedBy w want c = (d : Text) × (equal_fold (w.sha256 d) want ≡ true) × IsDiskOf w d c

-- An entry without stamp is not used; one that has its stamp is absent or verified.
pub data CacheEntry (w : World) (want cache_path stamp : Text) (fs : Files) : Type 0 where
  unstamped : fs stamp ≡ none → CacheEntry w want cache_path stamp fs
  absent : fs cache_path ≡ none → CacheEntry w want cache_path stamp fs
  verified :
      (c : Text)
      → fs cache_path ≡ some c
      → PinnedBy w want c
      → CacheEntry w want cache_path stamp fs

-- An error, or the path of an entry that is verified.
pub data Served (w : World) (want cache_path : Text) : Result AssetError Text × Files → Type 0 where
  refused : {e : AssetError} {fs : Files} → Served w want cache_path (err e, fs)
  served :
      {fs : Files} (c : Text)
      → fs cache_path ≡ some c
      → PinnedBy w want c
      → Served w want cache_path (ok cache_path, fs)

write-other : (path p c : Text) (fs : Files) → text_eq p path ≡ false → write path c fs p ≡ fs p
unfolding write
write-other path p c fs h = rw h refl

remove-other : (path p : Text) (fs : Files) → text_eq p path ≡ false → remove path fs p ≡ fs p
unfolding remove
remove-other path p fs h = rw h refl

after_conversion-other :
    (path p : Text) (fs : Files) (v : Conversion)
    → text_eq p path ≡ false
    → (after_conversion path fs v).1 p ≡ fs p
after_conversion-other path p fs unconverted h = refl
after_conversion-other path p fs lost h = remove-other path p fs h
after_conversion-other path p fs (converted raw) h = write-other path p raw fs h

ensure_raw_content-other :
    (w : World) (path p : Text) (fs : Files) (content : Option Text)
    → text_eq p path ≡ false
    → (ensure_raw_content w path fs content).1 p ≡ fs p
unfolding ensure_raw_content
ensure_raw_content-other w path p fs none h = refl
ensure_raw_content-other w path p fs (some c) h = elim (Bool-cases (has_prefix c qcow2_magic)) [
  | inl magic ↦ rw magic (after_conversion-other path p fs (w.to_raw c) h)
  | inr plain ↦ rw plain refl
]

try_remove-other :
    (calls : CacheCalls) (path p : Text) (fs : Files)
    → text_eq p path ≡ false
    → try_remove calls path fs p ≡ fs p
unfolding try_remove
try_remove-other calls path p fs h = elim (Bool-cases (calls.removes path)) [
  | inl works ↦ rw works (remove-other path p fs h)
  | inr fails ↦ rw fails refl
]

try_remove-none :
    (calls : CacheCalls) (path p : Text) (fs : Files)
    → fs p ≡ none
    → try_remove calls path fs p ≡ none
unfolding try_remove remove
try_remove-none calls path p fs h = elim (Bool-cases (calls.removes path)) [
  | inr fails ↦ rw fails h
  | inl works ↦ elim (Bool-cases (text_eq p path)) [
    | inl here ↦ rw works (rw here refl)
    | inr other ↦ rw works (rw other h)
  ]
]

-- No entry is served from files without the stamp or without the entry.
unfoldable pub Incomplete : Text → Text → Files → Type 0
Incomplete cache_path stamp fs = (fs stamp ≡ none) ⊎ (fs cache_path ≡ none)

-- Both results of a call that has missed the cache.
unfoldable pub Both : World → Text → Text → Text → Result AssetError Text × Files → Type 0
Both w want cache_path stamp r = CacheEntry w want cache_path stamp r.1 × Served w want cache_path r

pub try_remove-Incomplete :
    (calls : CacheCalls) (cache_path stamp path : Text) (fs : Files)
    → Incomplete cache_path stamp fs
    → Incomplete cache_path stamp (try_remove calls path fs)
unfolding Incomplete
try_remove-Incomplete calls cache_path stamp path fs (inl n) =
    inl (try_remove-none calls path stamp fs n)
try_remove-Incomplete calls cache_path stamp path fs (inr n) =
    inr (try_remove-none calls path cache_path fs n)

-- Files that agree at the stamp and the entry
same-Incomplete :
    (cache_path stamp : Text) (fs gs : Files)
    → gs stamp ≡ fs stamp
    → gs cache_path ≡ fs cache_path
    → Incomplete cache_path stamp fs
    → Incomplete cache_path stamp gs
unfolding Incomplete
same-Incomplete cache_path stamp fs gs s c (inl n) = inl (s ∙ n)
same-Incomplete cache_path stamp fs gs s c (inr n) = inr (c ∙ n)

refused-Both :
    (w : World) (want cache_path stamp : Text) (e : AssetError) (fs : Files)
    → Incomplete cache_path stamp fs
    → Both w want cache_path stamp (err e, fs)
unfolding Both Incomplete
refused-Both w want cache_path stamp e fs (inl n) = (unstamped n, refused)
refused-Both w want cache_path stamp e fs (inr n) = (absent n, refused)

-- The error of a call that gives up the download.
dropped-Both :
    (w : World) (calls : CacheCalls) (want cache_path stamp dl : Text) (e : AssetError) (fs : Files)
    → Incomplete cache_path stamp fs
    → Both w want cache_path stamp (err e, try_remove calls dl fs)
dropped-Both w calls want cache_path stamp dl e fs n =
    refused-Both w want cache_path stamp e (try_remove calls dl fs)
      (try_remove-Incomplete calls cache_path stamp dl fs n)

write_stamp-Both :
    (w : World) (want cache_path stamp raw : Text) (r : StampWrite) (fs : Files)
    → text_eq cache_path stamp ≡ false
    → fs cache_path ≡ some raw
    → PinnedBy w want raw
    → Both w want cache_path stamp (write_stamp r cache_path stamp fs)
unfolding write_stamp Both
write_stamp-Both w want cache_path stamp raw stamped fs cs e p =
    let entry = write-other stamp cache_path [] fs cs ∙ e in
    (verified raw entry p, served raw entry p)
write_stamp-Both w want cache_path stamp raw unstamped_failed fs cs e p =
    (verified raw e p, refused)
write_stamp-Both w want cache_path stamp raw stamped_failed fs cs e p =
    (verified raw (write-other stamp cache_path [] fs cs ∙ e) p, refused)

-- Where the files of an entry stand, apart from each other
pub record Apart (cache_path stamp dl : Text) : Type 0 where
  pub entry_stamp : text_eq cache_path stamp ≡ false
  pub entry_dl : text_eq cache_path dl ≡ false
  pub stamp_dl : text_eq stamp dl ≡ false

module _ (w : World) (calls : CacheCalls) (want cache_path stamp dl : Text)
    (apart : Apart cache_path stamp dl) where
  stamp_entry-Both :
      (content : Text) (gs : Files) (raw : Option Text)
      → equal_fold (w.sha256 content) want ≡ true
      → Incomplete cache_path stamp gs
      → ((c : Text) → raw ≡ some c → IsDiskOf w content c)
      → Both w want cache_path stamp (stamp_entry calls cache_path stamp dl gs raw)
  unfolding stamp_entry
  stamp_entry-Both content gs none v n disk =
      dropped-Both w calls want cache_path stamp dl finalize_failed gs n
  stamp_entry-Both content gs (some raw) v n disk = elim (Bool-cases calls.rename) [
    | inr fails ↦ rw fails (dropped-Both w calls want cache_path stamp dl finalize_failed gs n)
    | inl works ↦ rw works (
        write_stamp-Both w want cache_path stamp raw calls.stamp_write
          (write cache_path raw (remove dl gs)) apart.entry_stamp
          (write-same cache_path raw (remove dl gs)) (content, v, disk raw refl))
  ]

  finish_cached-Both :
      (content : Text) (gs : Files) (r : Check AssetError)
      → equal_fold (w.sha256 content) want ≡ true
      → Incomplete cache_path stamp gs
      → ((c : Text) → gs dl ≡ some c → IsDiskOf w content c)
      → Both w want cache_path stamp (finish_cached calls cache_path stamp dl (r, gs))
  unfolding finish_cached
  finish_cached-Both content gs (err e) v n disk =
      dropped-Both w calls want cache_path stamp dl e gs n
  finish_cached-Both content gs (ok _) v n disk = stamp_entry-Both content gs (gs dl) v n disk

  -- A download in its place leaves the entry as it was.
  written-Incomplete :
      (content : Text) (fs : Files)
      → Incomplete cache_path stamp fs
      → Incomplete cache_path stamp (write dl content fs)
  written-Incomplete content fs n =
      same-Incomplete cache_path stamp fs (write dl content fs)
        (write-other dl stamp content fs apart.stamp_dl)
        (write-other dl cache_path content fs apart.entry_dl) n

  raw-Incomplete :
      (fs : Files)
      → Incomplete cache_path stamp fs
      → Incomplete cache_path stamp (ensure_raw w dl fs).1
  unfolding ensure_raw
  raw-Incomplete fs n =
      same-Incomplete cache_path stamp fs (ensure_raw w dl fs).1
        (ensure_raw_content-other w dl stamp fs (fs dl) apart.stamp_dl)
        (ensure_raw_content-other w dl cache_path fs (fs dl) apart.entry_dl) n

  pub fill_cache-Both :
      (fs : Files) (body : Option Text)
      → Incomplete cache_path stamp fs
      → Both w want cache_path stamp (fill_cache w calls want cache_path stamp dl fs body)
  unfolding fill_cache ensure_raw raw_at
  fill_cache-Both fs none n = dropped-Both w calls want cache_path stamp dl download_failed fs n
  fill_cache-Both fs (some content) n =
      let gs = write dl content fs in
      let m = written-Incomplete content fs n in
      elim (Bool-cases calls.readable) [
        | inr fails ↦
            rw fails (dropped-Both w calls want cache_path stamp dl unreadable_download gs m)
        | inl works ↦ elim (Bool-cases (equal_fold (w.sha256 content) want)) [
          | inr x ↦
              rw works (rw x (dropped-Both w calls want cache_path stamp dl sha256_mismatch gs m))
          | inl v ↦ rw works (
              rw v (
                finish_cached-Both content (ensure_raw w dl gs).1 (ensure_raw w dl gs).0 v
                  (raw-Incomplete gs m)
                  (λ c e. raw_at-disk w dl content c gs (write-same dl content fs) e)))
        ]
      ]
