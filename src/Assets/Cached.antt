-- ===== src/Assets/Cached.antt =====
-- The content-addressed cache (ensureCachedBaseImage): a stamped entry is a verified download.
use bladerunner.Prelude.{
  &&-eq-true, ==_refl, Bool-cases, Option, Text, [], arith, codes, false, inl, inr, is_empty,
  ne_text_eq, none, ok, refl, some, text_eq, text_eq_ne, true, ◌&&◌, ◌++◌, ◌∷◌, ◌≡◌, ◌≢◌, ◌⊎◌,
}
use bladerunner.Config.{Config}
use bladerunner.Config.Default.{Env, image_cache_path}
use bladerunner.Assets.{CacheCalls, try_remove, World, Files, exists, ensure_cached}
use bladerunner.Assets.Filled.{
  CacheEntry, unstamped, absent, verified, Served, refused, served, Incomplete, Both,
  try_remove-Incomplete, Apart, fill_cache-Both,
}

-- Where an entry and its files stand.
abbrev pub entry_of : Env → Config → Text
entry_of env cfg = image_cache_path env cfg.base_image_expected_sha256

suffix_ne : (p : Text) (s t : Text) → s ≢ t → text_eq (p ++ s) (p ++ t) ≡ false
unfolding text_eq
suffix_ne [] s t h = ne_text_eq s t h
suffix_ne (c ∷ p) s t h = rw (==_refl c) (suffix_ne p s t h)

not_stamp : (p : Text) → text_eq p (p ++ codes ".ok") ≡ false
unfolding text_eq
not_stamp [] = refl
not_stamp (c ∷ p) = rw (==_refl c) (not_stamp p)

not_dl : (p : Text) → text_eq p (p ++ codes ".dl") ≡ false
unfolding text_eq
not_dl [] = refl
not_dl (c ∷ p) = rw (==_refl c) (not_dl p)

stamp_ne : codes ".ok" ≢ codes ".dl"
unfolding text_eq
stamp_ne = text_eq_ne (codes ".ok") (codes ".dl") refl

exists-none : (p : Text) (fs : Files) → fs p ≡ none → exists p fs ≡ false
exists-none p fs e = rw (e, exists) refl

hit-Served :
    (w : World) (want cache_path stamp : Text) (fs : Files)
    → CacheEntry w want cache_path stamp fs
    → exists cache_path fs ≡ true
    → exists stamp fs ≡ true
    → Served w want cache_path (ok cache_path, fs)
hit-Served w want cache_path stamp fs (unstamped n) e k = cc (exists-none stamp fs n, k)
hit-Served w want cache_path stamp fs (absent n) e k = cc (exists-none cache_path fs n, e)
hit-Served w want cache_path stamp fs (verified c f p) e k = served c f p

entry_of-Apart : (p : Text) → Apart p (p ++ codes ".ok") (p ++ codes ".dl")
entry_of-Apart p = record {
  entry_stamp = not_stamp p;
  entry_dl = not_dl p;
  stamp_dl = suffix_ne p (codes ".ok") (codes ".dl") stamp_ne;
}

both_there :
    (cache_path stamp : Text) (fs : Files) {a b : Text}
    → fs cache_path ≡ some a
    → fs stamp ≡ some b
    → (exists cache_path fs && exists stamp fs) ≡ false
    → ⊥
both_there cache_path stamp fs c e h =
    let x : exists cache_path fs ≡ true = rw (c, exists) refl in
    let y : exists stamp fs ≡ true = rw (e, exists) refl in ground (arith, x, y)

missed-Incomplete :
    (cache_path stamp : Text) (fs : Files)
    → (exists cache_path fs && exists stamp fs) ≡ false
    → Incomplete cache_path stamp fs
unfolding Incomplete
missed-Incomplete cache_path stamp fs h = go (fs cache_path) (fs stamp) refl refl
  where
    go :
        (c s : Option Text)
        → fs cache_path ≡ c
        → fs stamp ≡ s
        → (fs stamp ≡ none) ⊎ (fs cache_path ≡ none)
    go none s c e = inr c
    go (some a) none c e = inl e
    go (some a) (some b) c e = absurd (both_there cache_path stamp fs c e h)

-- The cache of an entry that is sound before ensureCachedBaseImage is sound after it, whichever of
-- its calls fail: the directory, each of the removals, the download, its read for the digest, the
-- check of the digest, the conversion, the rename, and the stamp, which a failed write may leave or
-- not. And the call fails, or serves an entry that is verified against the digest that the disk pins.
pub ensure_cached-CacheEntry :
    (w : World) (calls : CacheCalls) (env : Env) (cfg : Config) (fs : Files)
    → CacheEntry w cfg.base_image_expected_sha256
        (entry_of env cfg)
        (entry_of env cfg ++ codes ".ok")
        fs
    → CacheEntry w cfg.base_image_expected_sha256
        (entry_of env cfg)
        (entry_of env cfg ++ codes ".ok")
        (ensure_cached w calls env cfg fs).1
      × Served w cfg.base_image_expected_sha256
          (entry_of env cfg)
          (ensure_cached w calls env cfg fs)
unfolding ensure_cached Both
ensure_cached-CacheEntry w calls env cfg fs h =
    let cache_path = entry_of env cfg in
    let stamp = cache_path ++ codes ".ok" in
    elim (Bool-cases (exists cache_path fs && exists stamp fs)) [
      | inl hit ↦
          let (entry, marked) = &&-eq-true (exists cache_path fs) (exists stamp fs) hit in
          rw hit (h, hit-Served w cfg.base_image_expected_sha256 cache_path stamp fs h entry marked)
      | inr miss ↦ elim (Bool-cases (is_empty cfg.base_image_url)) [
        | inl e ↦ rw miss (rw e (h, refused))
        | inr e ↦ elim (Bool-cases calls.mkdir) [
          | inr fails ↦ rw miss (rw e (rw fails (h, refused)))
          | inl works ↦ rw miss (
              rw e (
                rw works (
                  fill_cache-Both w calls cfg.base_image_expected_sha256 cache_path stamp
                    (cache_path ++ codes ".dl") (entry_of-Apart cache_path)
                    (try_remove calls stamp (try_remove calls cache_path fs))
                    (w.fetch cfg.base_image_url)
                    (try_remove-Incomplete calls cache_path stamp stamp
                      (try_remove calls cache_path fs)
                      (try_remove-Incomplete calls cache_path stamp cache_path fs
                        (missed-Incomplete cache_path stamp fs miss))))))
        ]
      ]
    ]
