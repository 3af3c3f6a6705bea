-- ===== src/Cops/Receive/Faults.antt =====
-- The keys that an activation's body must have: `map[key]` panics where one is missing.
use frl_online_proxy.Prelude.{String, ◌≡◌, ◌≢◌, refl, none, List, [], ◌∷◌, All, arith}
use frl_online_proxy.Prelude.Dict
use frl_online_proxy.Outcome.{Outcome, ok, err, panic, ◌>>=◌}
use frl_online_proxy.Http.{World, Value, Parts, Bytes}
use frl_online_proxy.Cops.{Request, BadRequest, activation}
use frl_online_proxy.Cops.Receive.{
  start, take_headers, str_field, bool_field, object_field, read_activation, update_from_headers,
  from_activation, body_map,
}

-- The map has all the keys.
abbrev pub Has : Dict.HashMap Value → List String → Type 0
Has map keys = All (λ key. Dict.get map key ≢ none) keys

abbrev pub top_keys : List String
top_keys = "npdId" ∷ "asnpTemplateId" ∷ []

abbrev pub app_keys : List String
app_keys = "nglAppId" ∷ "nglAppVersion" ∷ "nglLibVersion" ∷ []

abbrev pub device_keys : List String
device_keys =
    "currentDate" ∷ "deviceId" ∷ "osUserId" ∷ "osName" ∷ "osVersion" ∷ "enableVdiMarkerExists"
    ∷ "isOsUserAccountInDomain" ∷ "isVirtualEnvironment" ∷ []

-- A body with every key that is indexed, in the two objects where they are there.
pub record HasKeys (map : Dict.HashMap Value) : Type 0 where
  pub top : Has map top_keys
  pub app :
      (app_map : Dict.HashMap Value)
      → object_field map "appDetails" ≡ ok app_map
      → Has app_map app_keys
  pub device :
      (device_map : Dict.HashMap Value)
      → object_field map "deviceDetails" ≡ ok device_map
      → Has device_map device_keys

module _ (map : Dict.HashMap Value) (key : String) where
  str_field-ne-panic : Dict.get map key ≢ none → str_field map key ≢ panic
  unfolding str_field
  str_field-ne-panic h e = ground arith

  str_field-key : Dict.get map key ≡ none → str_field map key ≡ panic
  unfolding str_field
  str_field-key h = ground arith

  bool_field-ne-panic : Dict.get map key ≢ none → bool_field map key ≢ panic
  unfolding bool_field
  bool_field-ne-panic h e = ground arith

  bool_field-key : Dict.get map key ≡ none → bool_field map key ≡ panic
  unfolding bool_field
  bool_field-key h = ground arith

  object_field-ne-panic : object_field map key ≢ panic
  unfolding object_field
  object_field-ne-panic h = ground arith

bind-ne-panic :
    {A B : Type 0} (o : Outcome BadRequest A) (f : A → Outcome BadRequest B)
    → o ≢ panic
    → ((a : A) → o ≡ ok a → f a ≢ panic)
    → (o >>= f) ≢ panic
bind-ne-panic (ok a) f n h q = h a refl q
bind-ne-panic (err e) f n h q = cc
bind-ne-panic panic f n h q = n refl

read_activation-ne-panic :
    (map : Dict.HashMap Value) (req : Request) → HasKeys map → read_activation map req ≢ panic
unfolding read_activation
read_activation-ne-panic map req h =
    let (npd, (asnp, _)) = h.top in
    bind-ne-panic _ _ (str_field-ne-panic map "npdId" npd) λ _ _.
      bind-ne-panic _ _ (str_field-ne-panic map "asnpTemplateId" asnp) λ _ _.
        bind-ne-panic _ _ (object_field-ne-panic map "appDetails") λ a ea.
          let (id, (version, (lib, _))) = h.app a ea in
          bind-ne-panic _ _ (str_field-ne-panic a _ id) λ _ _.
            bind-ne-panic _ _ (str_field-ne-panic a _ version) λ _ _.
              bind-ne-panic _ _ (str_field-ne-panic a _ lib) λ _ _.
                bind-ne-panic _ _ (object_field-ne-panic map "deviceDetails") λ d ed.
                  let (date, (device, (user, (name, (os, (vdi, (domain, (virtual, _)))))))) =
                    h.device d ed in
                  bind-ne-panic _ _ (str_field-ne-panic d _ date) λ _ _.
                    bind-ne-panic _ _ (str_field-ne-panic d _ device) λ _ _.
                      bind-ne-panic _ _ (str_field-ne-panic d _ user) λ _ _.
                        bind-ne-panic _ _ (str_field-ne-panic d _ name) λ _ _.
                          bind-ne-panic _ _ (str_field-ne-panic d _ os) λ _ _.
                            bind-ne-panic _ _ (bool_field-ne-panic d _ vdi) λ _ _.
                              bind-ne-panic _ _ (bool_field-ne-panic d _ domain) λ _ _.
                                bind-ne-panic _ _ (bool_field-ne-panic d _ virtual) λ _ _ e. cc

read_activation-HasKeys :
    (map : Dict.HashMap Value) (req r : Request) → read_activation map req ≡ ok r → HasKeys map
unfolding read_activation
read_activation-HasKeys map req r h = record {
  top = (
    λ e. ground (arith, str_field-key map "npdId" e),
    (λ e. ground (arith, str_field-key map "asnpTemplateId" e), tt),
  );
  app = λ a ea. (
    λ e. ground (arith, str_field-key a "nglAppId" e),
    (
      λ e. ground (arith, str_field-key a "nglAppVersion" e),
      (λ e. ground (arith, str_field-key a "nglLibVersion" e), tt),
    ),
  );
  device = λ d ed. (
    λ e. ground (arith, str_field-key d "currentDate" e),
    (
      λ e. ground (arith, str_field-key d "deviceId" e),
      (
        λ e. ground (arith, str_field-key d "osUserId" e),
        (
          λ e. ground (arith, str_field-key d "osName" e),
          (
            λ e. ground (arith, str_field-key d "osVersion" e),
            (
              λ e. ground (arith, bool_field-key d "enableVdiMarkerExists" e),
              (
                λ e. ground (arith, bool_field-key d "isOsUserAccountInDomain" e),
                (λ e. ground (arith, bool_field-key d "isVirtualEnvironment" e), tt),
              ),
            ),
          ),
        ),
      ),
    ),
  );
}

-- Whatever the headers: an activation does not end in a panic if its body has the keys that are
-- indexed (two at the top, and those of the app's and of the device's object where that object is
-- there), and only such an activation is accepted. So the three flags of the device are required too,
-- although the code has a default for each.
pub from_activation-HasKeys :
    (w : World) (parts : Parts) (body : Bytes) (now : String)
    → (HasKeys (body_map w body) → from_activation w parts body now ≢ panic)
      × ((r : Request) → from_activation w parts body now ≡ ok r → HasKeys (body_map w body))
unfolding from_activation update_from_headers
from_activation-HasKeys w parts body now =
    let req = take_headers (start activation now) parts.headers in
    (
      λ h e. ground (arith, read_activation-ne-panic (body_map w body) req h),
      λ r e. read_activation-HasKeys (body_map w body) req r (ground arith),
    )
