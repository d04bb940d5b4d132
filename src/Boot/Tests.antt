-- ===== src/Boot/Tests.antt =====
-- Concrete boot arguments, and the theorems at them.
use bladerunner.Prelude.{
  Text, [], codes, contains, cut_prefix, err, has_prefix, none, ok, refl, true, ◌≡◌, ◌⊎◌,
}
use bladerunner.Config.{arch_arm64}
use bladerunner.Disk.{Manifest}
use bladerunner.Disk.WellFormed.{IsDiskName}
use bladerunner.Boot.{classify, url_target, resolve, no_name_in_url}
use bladerunner.Boot.SlotName.{slot_name_from_url}
use bladerunner.Boot.Resolve.{IsOneOff, slot_name_from_url-IsDiskName, resolve_url_target}

abbrev sample_url : Text
sample_url = codes "https://host/My Disk.qcow2"

sample_url-classified : classify sample_url (λ _. true) ≡ url_target
unfolding classify contains has_prefix cut_prefix
sample_url-classified = refl

slot_name_from_url-IsDiskName_example :
    (slot_name_from_url sample_url ≡ []) ⊎ IsDiskName (slot_name_from_url sample_url)
slot_name_from_url-IsDiskName_example = slot_name_from_url-IsDiskName sample_url

resolve_url_target_example :
    (resolve arch_arm64 (λ _. none) [] url_target sample_url ≡ err (no_name_in_url sample_url))
    ⊎ ((m : Manifest) × (resolve arch_arm64 (λ _. none) [] url_target sample_url ≡ ok m)
        × IsOneOff arch_arm64 sample_url m)
resolve_url_target_example =
    resolve_url_target arch_arm64 (λ _. none) [] sample_url (λ _. true) sample_url-classified
