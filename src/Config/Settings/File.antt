-- ===== src/Config/Settings/File.antt =====
-- LoadSettings and Save (internal/config/settings.go), on the file at SettingsPath. encoding/json is
-- the parameter `Json`. The directory of a save is the settings file with the temporary file beside it.
pub mod RoundTrip
use bladerunner.Prelude.{
  &&-eq-true, ==_iff, ==_refl, >>-eq-ok, >>=-eq-ok, All, All-append, AtLeast, AtMost, Bool,
  Bool-cases, Check, IsDigit, List, Option, Option-cases, Result, String, Text, [], ap, append-nil,
  append_assoc, arith, atoi, atoi-decimal, codes, contains, cut_byte, cut_prefix, cut_prefix-some,
  decimal, decimal-cons, decimal-digits, drop, drop-length-append, err, fail_if, fail_if-eq-ok,
  false, fun_ext, get_elem?, has_prefix, has_prefix-rest, has_suffix, if◌then◌else◌, in_int64, inl,
  inr, int_eq, int_eq_iff, int_gt, int_gt_iff, int_lt, int_lt_iff, is_empty, is_ok, is_ok_unit,
  is_space, itoa, leb, length, length-append, length-drop, length-take, lines_onto, ltb, map,
  map_err, min, ne_text_eq, negsuc, none, not, ok, ok-injective, parse-decimal, parse_digits,
  parse_nat, pos, refl, replicate, reverse, some, split_lines, subst, suc, sym, take,
  take-length-append, text_eq, text_eq_iff, text_eq_ne, text_eq_refl, to_lower, to_lower_byte,
  trim_left, trim_right, trim_space, true, zero, ||-eq-false, ℕ, ℤ, ◌%◌, ◌&&◌, ◌*◌, ◌++◌, ◌+◌, ◌-◌,
  ◌/◌, ◌<◌, ◌==◌, ◌>>=◌, ◌>>◌, ◌^◌, ◌||◌, ◌↔◌, ◌∙◌, ◌∷◌, ◌≡◌, ◌≢◌, ◌≤◌, ◌⊎◌,
}
use bladerunner.Config.Settings.{
  Settings, SettingsError, default_settings, settings_schema_version, validate_settings,
}
use bladerunner.Config.Default.{Env, default_state_dir}
use bladerunner.Prelude.FilePath.{join}

-- `unmarshal text s` is `s` after json.Unmarshal has written the fields of `text` into it.
pub record Json : Type 0 where
  pub marshal : Settings → Option Text
  pub unmarshal : Text → Settings → Option Settings

pub data SettingsFile : Type 0 where
  missing unreadable : SettingsFile
  present : Text → SettingsFile

pub data FileError : Type 0 where
  read_failed parse_failed encode_failed : FileError
  invalid_settings refused_settings : SettingsError → FileError
  mkdir_failed create_failed write_failed sync_failed close_failed rename_failed : FileError

-- SettingsPath
unfoldable pub settings_path : Env → Text → Text
unfolding default_state_dir
settings_path env state_dir =
    let dir = if is_empty state_dir then default_state_dir env else state_dir in
    join (dir ∷ codes "settings.json" ∷ [])

abbrev pub with_schema : Settings → Settings
with_schema s = record s { schema_version = settings_schema_version }

abbrev upgraded : Settings → Settings
upgraded s = if int_eq s.schema_version (pos 0) then with_schema s else s

unfoldable pub accept_settings : Option Settings → Result FileError Settings
unfolding validate_settings
accept_settings none = err parse_failed
accept_settings (some s) = do
  map_err invalid_settings (validate_settings (upgraded s))
  ok (upgraded s)

-- LoadSettings
unfoldable pub load_settings : Json → SettingsFile → Result FileError Settings
unfolding accept_settings default_settings
load_settings json missing = ok default_settings
load_settings json unreadable = err read_failed
load_settings json (present text) = accept_settings (json.unmarshal text default_settings)

-- Which of the calls into package os succeed, and what a failed write leaves in the temporary file.
pub record Calls : Type 0 where
  pub mkdir : Bool
  pub create : Bool
  pub write : Bool
  pub left : Text
  pub sync : Bool
  pub close : Bool
  pub rename : Bool
  pub remove : Bool

-- The settings file, and the content of the temporary file while there is one
pub record SaveDir : Type 0 where
  pub file : SettingsFile
  pub temp : Option Text

-- What Save returns, and the directory at its end and before, the last step first.
pub record SaveRun : Type 0 where
  pub result : Check FileError
  pub now : SaveDir
  pub before : List SaveDir

abbrev pub refuse_save : FileError → SaveDir → SaveRun
refuse_save e d = record { result = err e; now = d; before = [] }

-- An error behind the creation of the temporary file: the deferred os.Remove follows.
unfoldable pub abandon : Calls → FileError → SaveDir → List SaveDir → SaveRun
abandon calls e d past = record {
  result = err e;
  now = if calls.remove then record d { temp = none } else d;
  before = d ∷ past;
}

-- From the written temporary file to the rename
unfoldable pub save_written : Calls → Text → SaveDir → List SaveDir → SaveRun
unfolding abandon
save_written calls bytes d past =
    if not calls.sync
    then abandon calls sync_failed d past
    else if not calls.close
    then abandon calls close_failed d past
    else if not calls.rename
    then abandon calls rename_failed d past
    else record {
      result = ok tt;
      now = record { file = present bytes; temp = none };
      before = d ∷ past;
    }

-- From the empty temporary file to the written one
unfoldable pub save_temp : Calls → Text → SaveDir → List SaveDir → SaveRun
unfolding save_written abandon
save_temp calls bytes d past =
    if not calls.write
    then abandon calls write_failed (record d { temp = some calls.left }) (d ∷ past)
    else save_written calls bytes (record d { temp = some bytes }) (d ∷ past)

unfoldable pub save_text : Calls → SaveDir → Option Text → SaveRun
unfolding save_temp
save_text calls d none = refuse_save encode_failed d
save_text calls d (some text) =
    if not calls.create
    then refuse_save create_failed d
    else save_temp calls (text ++ (b'\n' ∷ [])) (record d { temp = some [] }) (d ∷ [])

unfoldable pub save_valid : Json → Calls → Settings → SaveDir → Check SettingsError → SaveRun
unfolding save_text
save_valid json calls s d (err e) = refuse_save (refused_settings e) d
save_valid json calls s d (ok _) =
    if not calls.mkdir
    then refuse_save mkdir_failed d
    else save_text calls d (json.marshal (with_schema s))

-- Save
unfoldable pub save_settings : Json → Calls → Settings → SaveDir → SaveRun
unfolding save_valid validate_settings
save_settings json calls s d = save_valid json calls s d (validate_settings s)
