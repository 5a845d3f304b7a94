-- ===== src/Producer/Metadata.antt =====
-- The metadata of an SDK instance, which Go compares by its fields; the struct itself is declared in
-- go-split-commons, and these are the fields that the code reads.
use split_synchronizer.Prelude.Keys.{Eq, ◌==◌}
use split_synchronizer.Prelude.Str.{Str, str_eq}
use split_synchronizer.Prelude.{Bool, true, ◌&&◌, ◌≡◌, ◌↔◌, arith}

pub record Metadata : Type 0 where
  pub sdk_version : Str
  pub machine_ip : Str
  pub machine_name : Str

abbrev pub metadata_beq : Metadata → Metadata → Bool
metadata_beq a b =
    a.sdk_version == b.sdk_version
    && a.machine_ip == b.machine_ip
    && a.machine_name == b.machine_name

pub metadata_beq_iff : (a b : Metadata) → (metadata_beq a b ≡ true) ↔ (a ≡ b)
metadata_beq_iff a b = ground (
  arith,
  str_eq.same_iff a.sdk_version b.sdk_version,
  str_eq.same_iff a.machine_ip b.machine_ip,
  str_eq.same_iff a.machine_name b.machine_name,
)

instance abbrev pub metadata_eq : Eq Metadata
metadata_eq = record { same = metadata_beq; same_iff = metadata_beq_iff }
