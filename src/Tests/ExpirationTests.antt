-- ===== src/Tests/ExpirationTests.antt =====
-- A certificate that ends 30 days after 0, on the two sides of the bound.
use sim_o1_ofhmp_interfaces.Prelude.{◌<>◌, true, false, some, [], ◌∷◌, ◌≡◌, refl}
use sim_o1_ofhmp_interfaces.Prelude.Result.{ok, err, name_error}
use sim_o1_ofhmp_interfaces.Datetime.{utc}
use sim_o1_ofhmp_interfaces.Config.Reload.{Config}
use sim_o1_ofhmp_interfaces.Expiration.{
  Certificate, definition_path, definition_below, certificate_expiration_job,
}
use sim_o1_ofhmp_interfaces.Tests.VesTests.{config}

abbrev certificate : Certificate
certificate = record {
  expiration_date = record { clock = 2592000000000; zone = some utc };
  formatted_date = "1970-01-31T00:00:00.000Z";
}

abbrev listening : Config
listening = record config { tls_callhome_endpoint = false; tls_listen_endpoint = true }

too_early :
    certificate_expiration_job listening certificate
      (record { clock = 0; zone = some utc })
      (λ path. ok path)
      (λ n. ok tt)
      []
    ≡ (ok tt, [])
unfolding certificate_expiration_job
too_early = refl

announced :
    certificate_expiration_job listening certificate
      (record { clock = 1; zone = some utc })
      (λ path. ok path)
      (λ n. ok tt)
      []
    ≡ (
      ok tt,
      record {
        xpath = definition_below "listen" <> "/certificate-expiration";
        expiration_date = "1970-01-31T00:00:00.000Z";
      }
          ∷ [],
    )
unfolding certificate_expiration_job definition_path
announced = refl

no_endpoint : definition_path (record listening { tls_listen_endpoint = false }) ≡ err name_error
unfolding definition_path
no_endpoint = refl
