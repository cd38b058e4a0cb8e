-- ===== src/Ccel/EventType.antt =====
-- types.js, `eventType`: the names of the event types.
use sylica.Base.{ℕ, String, List, [], ◌∷◌, ◌==◌, if◌then◌else◌, Result, ok, err, unknown_event_type}

-- The cases of the switch.
abbrev pub event_types : List (ℕ × String)
event_types =
    (0x00, "EV_PREBOOT_CERT")
    ∷ (0x01, "EV_POST_CODE")
    ∷ (0x03, "EV_NO_ACTION")
    ∷ (0x04, "EV_SEPARATOR")
    ∷ (0x05, "EV_ACTION")
    ∷ (0x06, "EV_EVENT_TAG")
    ∷ (0x07, "EV_S_CRTM_CONTENTS")
    ∷ (0x08, "EV_S_CRTM_VERSION")
    ∷ (0x09, "EV_CPU_MICROCODE")
    ∷ (0x0A, "EV_PLATFORM_CONFIG_FLAGS")
    ∷ (0x0B, "EV_TABLE_OF_DEVICES")
    ∷ (0x0C, "EV_COMPACT_HASH")
    ∷ (0x0F, "EV_NONHOST_CODE")
    ∷ (0x10, "EV_NONHOST_CONFIG")
    ∷ (0x11, "EV_NONHOST_INFO")
    ∷ (0x12, "EV_OMIT_BOOT_DEVICE_EVENTS")
    ∷ (0x80000000, "EV_EFI_EVENT_BASE")
    ∷ (0x80000001, "EV_EFI_VARIABLE_DRIVER_CONFIG")
    ∷ (0x80000002, "EV_EFI_VARIABLE_BOOT")
    ∷ (0x80000003, "EV_EFI_BOOT_SERVICES_APPLICATION")
    ∷ (0x80000004, "EV_EFI_BOOT_SERVICES_DRIVER")
    ∷ (0x80000005, "EV_EFI_RUNTIME_SERVICES_DRIVER")
    ∷ (0x80000006, "EV_EFI_GPT_EVENT")
    ∷ (0x80000007, "EV_EFI_ACTION")
    ∷ (0x80000008, "EV_EFI_PLATFORM_FIRMWARE_BLOB")
    ∷ (0x80000009, "EV_EFI_HANDOFF_TABLES")
    ∷ (0x8000000A, "EV_EFI_PLATFORM_FIRMWARE_BLOB2")
    ∷ (0x8000000B, "EV_EFI_HANDOFF_TABLES2")
    ∷ (0x80000010, "EV_EFI_HCRTM_EVENT")
    ∷ (0x800000E0, "EV_EFI_VARIABLE_AUTHORITY")
    ∷ (0x800000E1, "EV_EFI_SPDM_FIRMWARE_BLOB")
    ∷ (0x800000E2, "EV_EFI_SPDM_FIRMWARE_CONFIG")
    ∷ []

-- The first case of this value, or `default`.
unfoldable pub case_of : List (ℕ × String) → ℕ → Result String
case_of [] n = err (unknown_event_type n)
case_of ((k, name) ∷ rest) n = let later = case_of rest n in if n == k then ok name else later

unfoldable pub event_type : ℕ → Result String
unfolding case_of
event_type n = case_of event_types n
