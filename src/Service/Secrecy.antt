-- ===== src/Service/Secrecy.antt =====
-- The methods of src/pitblu_core/service.py leave the administrator's token alone.
use pitblu_core.Prelude.{
  ◌>>=◌, Bool, Exec, List, Option, Result, String, [], after_result, arith, err, nat_eq, ok,
  option_eq, pure, refl, string_eq, ℕ, ◌∙◌, ◌∷◌, ◌≡◌,
}
use pitblu_core.Models.{Datetime, DiscoveredDevice, TelemetrySource}
use pitblu_core.Storage.{DeviceRow}
use pitblu_core.Storage.DeviceTable.{delete_device, save_device, update_device}
use pitblu_core.Storage.OperationTable.{save_operation}
use pitblu_core.Service.{
  Service, known_device, save_object, set_columns, stop_polling, stop_recovery,
}
use pitblu_core.Service.Operations.{Action, begin, start_connection_operation, start_scan}
use pitblu_core.Service.Registration.{delete_registered, patch_device, register, save_registered}
use pitblu_core.Service.Views.{device_view, device_views, shown_device}

-- A method that leaves the token's record alone
abbrev pub SparesToken : {A : Type 0} → Exec Service A → Type 0
SparesToken m = (s : Service) → (m s).1.store.administrator_auth ≡ s.store.administrator_auth

pub start_scan-SparesToken :
    (duration : ℕ) (id : String) (now : ℕ) → SparesToken (start_scan duration id now)
unfolding start_scan save_object save_operation
start_scan-SparesToken duration id now s = ground arith

begin-SparesToken :
    (key : String) (action : Action) (id : String) (now : ℕ) (s : Service)
    → (begin key action id now s).store.administrator_auth ≡ s.store.administrator_auth
unfolding begin save_object save_operation set_columns update_device
begin-SparesToken key action id now s = ground arith

pub start-SparesToken :
    (key : String) (action : Action) (id : String) (now : ℕ)
    → SparesToken (start_connection_operation key action id now)
unfolding start_connection_operation
start-SparesToken key action id now s = ground (arith, begin-SparesToken key action id now s)

pub view-SparesToken :
    (source : TelemetrySource) (row : DeviceRow) → SparesToken (device_view source row)
unfolding device_view
view-SparesToken source row s = refl

pub register-SparesToken :
    (discovery : String) (name : Option String) (reconnect : Bool)
    (device_id : DiscoveredDevice → String) (source : TelemetrySource) (now : ℕ)
    → SparesToken (register discovery name reconnect device_id source now)
unfolding register save_registered save_device
register-SparesToken discovery name reconnect device_id source now s = ground arith

pub patch-SparesToken :
    (key : String) (name : Option (Option String)) (reconnect : Option Bool)
    (discovery : Option String)
    → SparesToken (patch_device key name reconnect discovery)
unfolding patch_device update_device
patch-SparesToken key name reconnect discovery s = ground arith

pub delete-SparesToken :
    (key : String) (released : Result (Unit {0})) (t0 t1 t2 t3 : Datetime)
    → SparesToken (delete_registered key released t0 t1 t2 t3)
unfolding delete_registered delete_device stop_polling stop_recovery
delete-SparesToken key released t0 t1 t2 t3 s = ground arith

module _ {A B : Type 0} where
  pub bind-SparesToken :
      (m : Exec Service A) (f : A → Exec Service B)
      → SparesToken m
      → ((a : A) → SparesToken (f a))
      → SparesToken (m >>= f)
  bind-SparesToken m f h k s = behind (m s).0 (m s).1 (h s)
    where
      behind :
          (r : Result A) (t : Service)
          → t.store.administrator_auth ≡ s.store.administrator_auth
          → (after_result r f t).1.store.administrator_auth ≡ s.store.administrator_auth
      behind (ok a) t e = k a t ∙ e
      behind (err x) t e = e

pub views-SparesToken :
    (source : TelemetrySource) (rows : List DeviceRow) → SparesToken (device_views source rows)
unfolding device_views
views-SparesToken source [] s = refl
views-SparesToken source (row ∷ rows) s =
    bind-SparesToken (device_view source row)
      (λ view. device_views source rows >>= λ views. pure (view ∷ views))
      (view-SparesToken source row)
      (λ view.
        bind-SparesToken (device_views source rows) (λ views. pure (view ∷ views))
          (views-SparesToken source rows) (λ views t. refl))
      s

pub shown-SparesToken :
    (source : TelemetrySource) (key : String) → SparesToken (shown_device source key)
unfolding shown_device
shown-SparesToken source key s = behind (known_device key s)
  where
    behind :
        (r : Result DeviceRow)
        → (after_result r (device_view source) s).1.store.administrator_auth
          ≡ s.store.administrator_auth
    behind (ok row) = view-SparesToken source row s
    behind (err e) = refl
