-- ===== src/Tests/Scheme.antt =====
-- The registrations of the process with a library that keeps lists of what was added.
use mathlib.Core.List.{Memᴰ}
use redis_backup_operator.Base.{String, ◌≡◌, refl, ◌≢◌, ◌⊎◌, ◌↔◌, none, some, List, [], ◌∷◌}
use redis_backup_operator.Runtime.{returned, panicked}
use redis_backup_operator.Setup.{ObjectKind}
use redis_backup_operator.Scheme.{
  GoType, object, SchemeLibrary, RestConfig, init, new_client, scheme_builder,
}
use redis_backup_operator.Scheme.Documented.{Documented, IsKubernetes, IsServed, IsMeta}
use redis_backup_operator.Scheme.Known.{IsPassedOn, init-Knows, new_client-Knows}

pub data Added : Type 0 where
  kubernetes : Added
  builder : List (List GoType) → Added

abbrev IsListed : List (List GoType) → GoType → Type 0
IsListed [] t = ⊥
IsListed (ts ∷ b) t = Memᴰ t ts ⊎ (IsListed b t ⊎ IsMeta t)

abbrev IsAdded : List Added → GoType → Type 0
IsAdded [] t = ⊥
IsAdded (kubernetes ∷ s) t = IsKubernetes t ⊎ IsAdded s t
IsAdded (builder b ∷ s) t = IsListed b t ⊎ IsAdded s t

abbrev pub library : SchemeLibrary (List (List GoType)) (List Added) String String
library = record {
  new_builder = λ v. [];
  register = λ ts b. ts ∷ b;
  add_to_scheme = λ b s. (none, builder b ∷ s);
  new_scheme = [];
  client_go = λ s. (none, kubernetes ∷ s);
  default_user_agent = "manager/v0.0.0";
  rest_client_for = λ cfg. record { value = cfg.connection; error = none };
}

documented : Documented library
documented = record {
  IsRegistered = IsListed;
  Knows = IsAdded;
  new_builder = λ v t h. h;
  register = λ ts b t. (λ h. h, λ h. h);
  new_scheme = λ t h. h;
  add_to_scheme = λ b s t fine. (λ h. h, λ h. h);
  client_go = λ s t fine. (λ h. h, λ h. h);
}

abbrev pub in_cluster : RestConfig (List Added) String
in_cluster = record {
  connection = "https://10.96.0.1:443";
  group_version = none;
  api_path = "";
  content_type = "";
  user_agent = "";
  codecs = none;
}

abbrev process_scheme : List Added
process_scheme = builder (scheme_builder library) ∷ kubernetes ∷ []

returns_scheme : init library ≡ returned process_scheme
unfolding init
returns_scheme = refl

init-Knows_example :
    ((t : GoType) → documented.Knows process_scheme t ↔ (IsKubernetes t ⊎ IsServed t))
    × ((kind : ObjectKind) → documented.Knows process_scheme (object kind))
init-Knows_example = init-Knows library documented process_scheme returns_scheme

new_client-Knows_example :
    ((new_client library in_cluster ≡ panicked)
      × ((library.add_to_scheme (scheme_builder library) library.new_scheme).0 ≢ none))
    ⊎ ((scheme : List Added) × IsPassedOn
          (library.rest_client_for (record {
            connection = "https://10.96.0.1:443";
            group_version =
                some (record { group = "operator.bobfintech.com"; version = "v1alpha1" });
            api_path = "/apis";
            content_type = "application/json";
            user_agent = "manager/v0.0.0";
            codecs = some scheme;
          }))
          (new_client library in_cluster)
        × ((t : GoType) → documented.Knows scheme t ↔ (IsServed t ⊎ IsMeta t)))
new_client-Knows_example = new_client-Knows library documented in_cluster
