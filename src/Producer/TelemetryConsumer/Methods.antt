-- ===== src/Producer/TelemetryConsumer/Methods.antt =====
-- The methods that telemetry is kept for, with a value for each: the fields of `dtos.MethodLatencies` and
-- `dtos.MethodExceptions`, as the cases of the code name them.
use split_synchronizer.Prelude.{
  ℕ, Bool, true, if◌then◌else◌, nat_beq, ◌≡◌, refl, sym, ap, ◌∙◌, arith, zero, suc,
}

pub data Method : Type 0 where
  treatment : Method
  treatments : Method
  treatment_with_config : Method
  treatments_with_config : Method
  treatments_by_flag_set : Method
  treatments_by_flag_sets : Method
  treatments_with_config_by_flag_set : Method
  treatments_with_config_by_flag_sets : Method
  track : Method

pub record PerMethod (A : Type 0) : Type 0 where
  pub of_treatment : A
  pub of_treatments : A
  pub of_treatment_with_config : A
  pub of_treatments_with_config : A
  pub of_treatments_by_flag_set : A
  pub of_treatments_by_flag_sets : A
  pub of_treatments_with_config_by_flag_set : A
  pub of_treatments_with_config_by_flag_sets : A
  pub of_track : A

abbrev pub method_index : Method → ℕ
method_index treatment = 0
method_index treatments = 1
method_index treatment_with_config = 2
method_index treatments_with_config = 3
method_index treatments_by_flag_set = 4
method_index treatments_by_flag_sets = 5
method_index treatments_with_config_by_flag_set = 6
method_index treatments_with_config_by_flag_sets = 7
method_index track = 8

abbrev from_index : ℕ → Method
from_index zero = treatment
from_index (suc zero) = treatments
from_index (suc (suc zero)) = treatment_with_config
from_index (suc (suc (suc zero))) = treatments_with_config
from_index (suc (suc (suc (suc zero)))) = treatments_by_flag_set
from_index (suc (suc (suc (suc (suc zero))))) = treatments_by_flag_sets
from_index (suc (suc (suc (suc (suc (suc zero)))))) = treatments_with_config_by_flag_set
from_index (suc (suc (suc (suc (suc (suc (suc zero))))))) = treatments_with_config_by_flag_sets
from_index (suc (suc (suc (suc (suc (suc (suc (suc n)))))))) = track

from_index-method_index : (m : Method) → from_index (method_index m) ≡ m
from_index-method_index treatment = refl
from_index-method_index treatments = refl
from_index-method_index treatment_with_config = refl
from_index-method_index treatments_with_config = refl
from_index-method_index treatments_by_flag_set = refl
from_index-method_index treatments_by_flag_sets = refl
from_index-method_index treatments_with_config_by_flag_set = refl
from_index-method_index treatments_with_config_by_flag_sets = refl
from_index-method_index track = refl

abbrev pub same_method : Method → Method → Bool
same_method a b = nat_beq (method_index a) (method_index b)

module _ {A : Type 0} where
  abbrev pub every_method : A → PerMethod A
  every_method a = record {
    of_treatment = a;
    of_treatments = a;
    of_treatment_with_config = a;
    of_treatments_with_config = a;
    of_treatments_by_flag_set = a;
    of_treatments_by_flag_sets = a;
    of_treatments_with_config_by_flag_set = a;
    of_treatments_with_config_by_flag_sets = a;
    of_track = a;
  }

  abbrev pub of_method : Method → PerMethod A → A
  of_method treatment r = r.of_treatment
  of_method treatments r = r.of_treatments
  of_method treatment_with_config r = r.of_treatment_with_config
  of_method treatments_with_config r = r.of_treatments_with_config
  of_method treatments_by_flag_set r = r.of_treatments_by_flag_set
  of_method treatments_by_flag_sets r = r.of_treatments_by_flag_sets
  of_method treatments_with_config_by_flag_set r = r.of_treatments_with_config_by_flag_set
  of_method treatments_with_config_by_flag_sets r = r.of_treatments_with_config_by_flag_sets
  of_method track r = r.of_track

  abbrev pub put_method : Method → A → PerMethod A → PerMethod A
  put_method treatment a r = record r { of_treatment = a }
  put_method treatments a r = record r { of_treatments = a }
  put_method treatment_with_config a r = record r { of_treatment_with_config = a }
  put_method treatments_with_config a r = record r { of_treatments_with_config = a }
  put_method treatments_by_flag_set a r = record r { of_treatments_by_flag_set = a }
  put_method treatments_by_flag_sets a r = record r { of_treatments_by_flag_sets = a }
  put_method treatments_with_config_by_flag_set a r = record r {
    of_treatments_with_config_by_flag_set = a;
  }
  put_method treatments_with_config_by_flag_sets a r = record r {
    of_treatments_with_config_by_flag_sets = a;
  }
  put_method track a r = record r { of_track = a }

  pub of_method-put_method :
      (m n : Method) (a : A) (r : PerMethod A)
      → of_method n (put_method m a r) ≡ (if same_method m n then a else of_method n r)
  of_method-put_method treatment treatment a r = refl
  of_method-put_method treatment treatments a r = refl
  of_method-put_method treatment treatment_with_config a r = refl
  of_method-put_method treatment treatments_with_config a r = refl
  of_method-put_method treatment treatments_by_flag_set a r = refl
  of_method-put_method treatment treatments_by_flag_sets a r = refl
  of_method-put_method treatment treatments_with_config_by_flag_set a r = refl
  of_method-put_method treatment treatments_with_config_by_flag_sets a r = refl
  of_method-put_method treatment track a r = refl
  of_method-put_method treatments treatment a r = refl
  of_method-put_method treatments treatments a r = refl
  of_method-put_method treatments treatment_with_config a r = refl
  of_method-put_method treatments treatments_with_config a r = refl
  of_method-put_method treatments treatments_by_flag_set a r = refl
  of_method-put_method treatments treatments_by_flag_sets a r = refl
  of_method-put_method treatments treatments_with_config_by_flag_set a r = refl
  of_method-put_method treatments treatments_with_config_by_flag_sets a r = refl
  of_method-put_method treatments track a r = refl
  of_method-put_method treatment_with_config treatment a r = refl
  of_method-put_method treatment_with_config treatments a r = refl
  of_method-put_method treatment_with_config treatment_with_config a r = refl
  of_method-put_method treatment_with_config treatments_with_config a r = refl
  of_method-put_method treatment_with_config treatments_by_flag_set a r = refl
  of_method-put_method treatment_with_config treatments_by_flag_sets a r = refl
  of_method-put_method treatment_with_config treatments_with_config_by_flag_set a r = refl
  of_method-put_method treatment_with_config treatments_with_config_by_flag_sets a r = refl
  of_method-put_method treatment_with_config track a r = refl
  of_method-put_method treatments_with_config treatment a r = refl
  of_method-put_method treatments_with_config treatments a r = refl
  of_method-put_method treatments_with_config treatment_with_config a r = refl
  of_method-put_method treatments_with_config treatments_with_config a r = refl
  of_method-put_method treatments_with_config treatments_by_flag_set a r = refl
  of_method-put_method treatments_with_config treatments_by_flag_sets a r = refl
  of_method-put_method treatments_with_config treatments_with_config_by_flag_set a r = refl
  of_method-put_method treatments_with_config treatments_with_config_by_flag_sets a r = refl
  of_method-put_method treatments_with_config track a r = refl
  of_method-put_method treatments_by_flag_set treatment a r = refl
  of_method-put_method treatments_by_flag_set treatments a r = refl
  of_method-put_method treatments_by_flag_set treatment_with_config a r = refl
  of_method-put_method treatments_by_flag_set treatments_with_config a r = refl
  of_method-put_method treatments_by_flag_set treatments_by_flag_set a r = refl
  of_method-put_method treatments_by_flag_set treatments_by_flag_sets a r = refl
  of_method-put_method treatments_by_flag_set treatments_with_config_by_flag_set a r = refl
  of_method-put_method treatments_by_flag_set treatments_with_config_by_flag_sets a r = refl
  of_method-put_method treatments_by_flag_set track a r = refl
  of_method-put_method treatments_by_flag_sets treatment a r = refl
  of_method-put_method treatments_by_flag_sets treatments a r = refl
  of_method-put_method treatments_by_flag_sets treatment_with_config a r = refl
  of_method-put_method treatments_by_flag_sets treatments_with_config a r = refl
  of_method-put_method treatments_by_flag_sets treatments_by_flag_set a r = refl
  of_method-put_method treatments_by_flag_sets treatments_by_flag_sets a r = refl
  of_method-put_method treatments_by_flag_sets treatments_with_config_by_flag_set a r = refl
  of_method-put_method treatments_by_flag_sets treatments_with_config_by_flag_sets a r = refl
  of_method-put_method treatments_by_flag_sets track a r = refl
  of_method-put_method treatments_with_config_by_flag_set treatment a r = refl
  of_method-put_method treatments_with_config_by_flag_set treatments a r = refl
  of_method-put_method treatments_with_config_by_flag_set treatment_with_config a r = refl
  of_method-put_method treatments_with_config_by_flag_set treatments_with_config a r = refl
  of_method-put_method treatments_with_config_by_flag_set treatments_by_flag_set a r = refl
  of_method-put_method treatments_with_config_by_flag_set treatments_by_flag_sets a r = refl
  of_method-put_method treatments_with_config_by_flag_set treatments_with_config_by_flag_set a r =
      refl
  of_method-put_method treatments_with_config_by_flag_set treatments_with_config_by_flag_sets a r =
      refl
  of_method-put_method treatments_with_config_by_flag_set track a r = refl
  of_method-put_method treatments_with_config_by_flag_sets treatment a r = refl
  of_method-put_method treatments_with_config_by_flag_sets treatments a r = refl
  of_method-put_method treatments_with_config_by_flag_sets treatment_with_config a r = refl
  of_method-put_method treatments_with_config_by_flag_sets treatments_with_config a r = refl
  of_method-put_method treatments_with_config_by_flag_sets treatments_by_flag_set a r = refl
  of_method-put_method treatments_with_config_by_flag_sets treatments_by_flag_sets a r = refl
  of_method-put_method treatments_with_config_by_flag_sets treatments_with_config_by_flag_set a r =
      refl
  of_method-put_method treatments_with_config_by_flag_sets treatments_with_config_by_flag_sets a r =
      refl
  of_method-put_method treatments_with_config_by_flag_sets track a r = refl
  of_method-put_method track treatment a r = refl
  of_method-put_method track treatments a r = refl
  of_method-put_method track treatment_with_config a r = refl
  of_method-put_method track treatments_with_config a r = refl
  of_method-put_method track treatments_by_flag_set a r = refl
  of_method-put_method track treatments_by_flag_sets a r = refl
  of_method-put_method track treatments_with_config_by_flag_set a r = refl
  of_method-put_method track treatments_with_config_by_flag_sets a r = refl
  of_method-put_method track track a r = refl

  pub of_method-every_method : (m : Method) (a : A) → of_method m (every_method a) ≡ a
  of_method-every_method treatment a = refl
  of_method-every_method treatments a = refl
  of_method-every_method treatment_with_config a = refl
  of_method-every_method treatments_with_config a = refl
  of_method-every_method treatments_by_flag_set a = refl
  of_method-every_method treatments_by_flag_sets a = refl
  of_method-every_method treatments_with_config_by_flag_set a = refl
  of_method-every_method treatments_with_config_by_flag_sets a = refl
  of_method-every_method track a = refl

pub same_method_eq : (a b : Method) → same_method a b ≡ true → a ≡ b
same_method_eq a b e =
    let same : method_index a ≡ method_index b = ground (arith, e) in
    sym (from_index-method_index a) ∙ ap from_index same ∙ from_index-method_index b
