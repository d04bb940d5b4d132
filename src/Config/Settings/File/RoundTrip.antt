-- ===== src/Config/Settings/File/RoundTrip.antt =====
-- What is loaded is valid, and a save is whole or nothing.
use bladerunner.Prelude.{
  All, Bool-cases, Check, List, Option, Result, Text, [], err, false, inl, inr, is_ok, map_err,
  none, ok, ok-injective, refl, some, subst, text_eq, ◌++◌, ◌>>◌, ◌∷◌, ◌≡◌, ◌⊎◌,
}
use bladerunner.Config.Settings.{
  Settings, SettingsError, default_settings, validate_settings, start_policy_valid,
  net_setting_valid, nested_virt_valid, image_source_valid,
}
use bladerunner.Config.Settings.File.{
  Json, SettingsFile, missing, unreadable, present, FileError, Calls, with_schema, upgraded,
  accept_settings, load_settings, SaveDir, SaveRun, refuse_save, abandon, save_written, save_temp,
  save_text, save_valid, save_settings, encode_failed, mkdir_failed, create_failed, write_failed,
  sync_failed, close_failed, rename_failed, invalid_settings, refused_settings,
}

map_err-ok :
    (v : Check SettingsError) (f : SettingsError → FileError) {A : Type 0} (k : Result FileError A)
    {a : A}
    → (map_err f v >> k) ≡ ok a
    → (v ≡ ok tt) × (k ≡ ok a)
map_err-ok (ok tt) f k h = (refl, h)
map_err-ok (err e) f k h = cc

accept_settings-valid :
    (o : Option Settings) {s : Settings} → accept_settings o ≡ ok s → validate_settings s ≡ ok tt
unfolding accept_settings
accept_settings-valid none h = cc
accept_settings-valid (some t) {s} h =
    let (v, done) = map_err-ok (validate_settings (upgraded t)) invalid_settings _ h in
    subst (λ (x : Settings). validate_settings x ≡ ok tt) (ok-injective done) v

pub default_settings-ok : validate_settings default_settings ≡ ok tt
unfolding validate_settings default_settings start_policy_valid net_setting_valid nested_virt_valid
    image_source_valid text_eq
default_settings-ok = refl

-- Settings that are loaded, from whatever file, are valid.
pub load_settings-valid :
    (json : Json) (file : SettingsFile) {s : Settings}
    → load_settings json file ≡ ok s
    → validate_settings s ≡ ok tt
unfolding load_settings
load_settings-valid json missing h =
    subst (λ (x : Settings). validate_settings x ≡ ok tt) (ok-injective h) default_settings-ok
load_settings-valid json unreadable h = cc
load_settings-valid json (present text) h =
    accept_settings-valid (json.unmarshal text default_settings) h

-- The save is done: the settings are valid and the file holds their whole document, with a newline
-- behind it.
abbrev pub IsSaved : Json → Settings → SaveDir → Type 0
IsSaved json s d =
    (validate_settings s ≡ ok tt)
    × ((text : Text) × (json.marshal (with_schema s) ≡ some text)
        × (d.file ≡ present (text ++ (b'\n' ∷ []))))
    × (d.temp ≡ none)

-- The save has failed: the file is that of before, and no temporary file is left but where its
-- removal failed.
abbrev pub IsKept : Calls → SaveDir → SaveDir → Type 0
IsKept calls d now = (now.file ≡ d.file) × ((now.temp ≡ none) ⊎ (calls.remove ≡ false))

-- How a save ends, and at each step before the end the file is that of before.
abbrev pub IsAtomic : Json → Calls → Settings → SaveDir → SaveRun → Type 0
IsAtomic json calls s d r =
    (((r.result ≡ ok tt) × IsSaved json s r.now)
      ⊎ ((is_ok r.result ≡ false) × IsKept calls d r.now))
    × All (λ (x : SaveDir). x.file ≡ d.file) r.before

module _ (json : Json) (calls : Calls) (s : Settings) (d : SaveDir) where
  refuse-IsAtomic : (e : FileError) → d.temp ≡ none → IsAtomic json calls s d (refuse_save e d)
  refuse-IsAtomic e fresh = (inr (refl, (refl, inl fresh)), tt)

  abandon-IsAtomic :
      (e : FileError) (x : SaveDir) (past : List SaveDir)
      → x.file ≡ d.file
      → All (λ (y : SaveDir). y.file ≡ d.file) past
      → IsAtomic json calls s d (abandon calls e x past)
  unfolding abandon
  abandon-IsAtomic e x past h past_kept = elim (Bool-cases calls.remove) [
    | inl removed ↦ (rw removed (inr (refl, (h, inl refl)), (h, past_kept)))
    | inr left ↦ (rw left (inr (refl, (h, inr refl)), (h, past_kept)))
  ]

  save_written-IsAtomic :
      (text : Text) (x : SaveDir) (past : List SaveDir)
      → validate_settings s ≡ ok tt
      → json.marshal (with_schema s) ≡ some text
      → x.file ≡ d.file
      → All (λ (y : SaveDir). y.file ≡ d.file) past
      → IsAtomic json calls s d (save_written calls (text ++ (b'\n' ∷ [])) x past)
  unfolding save_written
  save_written-IsAtomic text x past v m h k = elim (Bool-cases calls.sync) [
    | inr e ↦ (rw e (abandon-IsAtomic sync_failed x past h k))
    | inl synced ↦ elim (Bool-cases calls.close) [
      | inr e ↦ (rw synced (rw e (abandon-IsAtomic close_failed x past h k)))
      | inl closed ↦ elim (Bool-cases calls.rename) [
        | inr e ↦ (rw synced (rw closed (rw e (abandon-IsAtomic rename_failed x past h k))))
        | inl renamed ↦
            (rw synced (rw closed (rw renamed (inl (refl, (v, (text, m, refl), refl)), (h, k)))))
      ]
    ]
  ]

  save_temp-IsAtomic :
      (text : Text) (x : SaveDir) (past : List SaveDir)
      → validate_settings s ≡ ok tt
      → json.marshal (with_schema s) ≡ some text
      → x.file ≡ d.file
      → All (λ (y : SaveDir). y.file ≡ d.file) past
      → IsAtomic json calls s d (save_temp calls (text ++ (b'\n' ∷ [])) x past)
  unfolding save_temp
  save_temp-IsAtomic text x past v m h k = elim (Bool-cases calls.write) [
    | inr e ↦
        (rw e
          (abandon-IsAtomic write_failed (record x { temp = some calls.left }) (x ∷ past) h (h, k)))
    | inl written ↦
        (rw written (
          save_written-IsAtomic text (record x { temp = some (text ++ (b'\n' ∷ [])) }) (x ∷ past) v
            m h (h, k)))
  ]

  save_text-IsAtomic :
      (o : Option Text)
      → d.temp ≡ none
      → validate_settings s ≡ ok tt
      → json.marshal (with_schema s) ≡ o
      → IsAtomic json calls s d (save_text calls d o)
  unfolding save_text
  save_text-IsAtomic none fresh v m = refuse-IsAtomic encode_failed fresh
  save_text-IsAtomic (some text) fresh v m = elim (Bool-cases calls.create) [
    | inr e ↦ (rw e (refuse-IsAtomic create_failed fresh))
    | inl created ↦
        (rw created
          (save_temp-IsAtomic text (record d { temp = some [] }) (d ∷ []) v m refl (refl, tt)))
  ]

  save_valid-IsAtomic :
      (v : Check SettingsError)
      → d.temp ≡ none
      → validate_settings s ≡ v
      → IsAtomic json calls s d (save_valid json calls s d v)
  unfolding save_valid
  save_valid-IsAtomic (err e) fresh v = refuse-IsAtomic (refused_settings e) fresh
  save_valid-IsAtomic (ok tt) fresh v = elim (Bool-cases calls.mkdir) [
    | inr e ↦ (rw e (refuse-IsAtomic mkdir_failed fresh))
    | inl made ↦ (rw made (save_text-IsAtomic (json.marshal (with_schema s)) fresh v refl))
  ]

-- Whichever calls of a save fail, where no temporary file is there before: it succeeds, the settings
-- are valid, and the file is their whole document with the current schema version and a newline
-- behind it; or it fails, and the file is that of before. At each step before the end the file is
-- that of before. No temporary file is left, but by a failed save whose removal of it fails.
pub save_settings-IsAtomic :
    (json : Json) (calls : Calls) (s : Settings) (d : SaveDir)
    → d.temp ≡ none
    → IsAtomic json calls s d (save_settings json calls s d)
unfolding save_settings
save_settings-IsAtomic json calls s d fresh =
    save_valid-IsAtomic json calls s d (validate_settings s) fresh refl
