-- ===== src/Controls/Kyc.antt =====
-- payments_api/services/kyc_service.py.
use global_payments_observab.Base.{
  String, ◌<>◌, ◌≡◌, ◌≢◌, refl, Bool, true, false, arith, ltb, if◌then◌else◌,
}
use global_payments_observab.Base.Exec.{Outcome, ok, err}
use global_payments_observab.Contracts.Enums.{
  PaymentMethod, pix, boleto, ted, card, KycLevel, basic, full, CustomerStatus, active, suspended,
}
use global_payments_observab.Contracts.Records.{Customer}
use global_payments_observab.Rails.{kyc_level_rank, minimum_kyc_level_for_method}
use global_payments_observab.Api.Errors.{Exception, app, kyc_denied}

unfoldable pub kyc_value : KycLevel → String
kyc_value KycLevel.none = "NONE"
kyc_value basic = "BASIC"
kyc_value full = "FULL"

abbrev is_active : CustomerStatus → Bool
is_active active = true
is_active suspended = false

-- `KycService.enforce`; `_resolve_minimum_kyc` never raises, as every method has a profile.
unfoldable pub enforce_kyc : Customer → PaymentMethod → Outcome Exception (Unit {0})
unfolding kyc_level_rank minimum_kyc_level_for_method kyc_value
enforce_kyc customer rail =
    let required = minimum_kyc_level_for_method rail in
    if is_active customer.status
    then if ltb (kyc_level_rank customer.kyc_level) (kyc_level_rank required)
      then err (
          app (
            kyc_denied (
              "Customer KYC level "
              <> (kyc_value customer.kyc_level <> (" is below required " <> kyc_value required)))))
      else ok tt
    else err (app (kyc_denied "Customer is suspended"))

-- The customers that a rail serves: TED wants full verification, the other rails basic.
pub data MayPay : KycLevel → PaymentMethod → Type 0 where
  full_pays : (rail : PaymentMethod) → MayPay full rail
  basic_pays : (rail : PaymentMethod) → rail ≢ ted → MayPay basic rail

admits :
    (level : KycLevel) (rail : PaymentMethod)
    → MayPay level rail
    → ltb (kyc_level_rank level) (kyc_level_rank (minimum_kyc_level_for_method rail)) ≡ false
unfolding kyc_level_rank minimum_kyc_level_for_method
admits _ pix (full_pays _) = refl
admits _ boleto (full_pays _) = refl
admits _ ted (full_pays _) = refl
admits _ card (full_pays _) = refl
admits _ pix (basic_pays _ h) = refl
admits _ boleto (basic_pays _ h) = refl
admits _ ted (basic_pays _ h) = absurd (h refl)
admits _ card (basic_pays _ h) = refl

only :
    (level : KycLevel) (rail : PaymentMethod)
    → ltb (kyc_level_rank level) (kyc_level_rank (minimum_kyc_level_for_method rail)) ≡ false
    → MayPay level rail
unfolding kyc_level_rank minimum_kyc_level_for_method
only full rail h = full_pays rail
only basic pix h = basic_pays pix (λ e. cc)
only basic boleto h = basic_pays boleto (λ e. cc)
only basic ted h = cc
only basic card h = basic_pays card (λ e. cc)
only KycLevel.none pix h = cc
only KycLevel.none boleto h = cc
only KycLevel.none ted h = cc
only KycLevel.none card h = cc

-- The check passes exactly for the active customers whose level serves the rail.
pub enforce_kyc_iff :
    (customer : Customer) (rail : PaymentMethod)
    → (enforce_kyc customer rail ≡ ok tt
        → (customer.status ≡ active) × MayPay customer.kyc_level rail)
      × ((customer.status ≡ active) × MayPay customer.kyc_level rail
          → enforce_kyc customer rail ≡ ok tt)
unfolding enforce_kyc
enforce_kyc_iff customer rail = (
  λ h. (ground arith, only customer.kyc_level rail (ground arith)),
  λ h. ground (arith, admits customer.kyc_level rail h.1),
)
