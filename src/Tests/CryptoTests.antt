-- ===== src/Tests/CryptoTests.antt =====
-- A package of cryptography whose keys are their own texts, a first start without files, and the text
-- of a key.
use sim_o1_ofhmp_interfaces.Prelude.{String, ◌<>◌, [], ◌∷◌, ◌++◌, ◌≡◌, refl}
use sim_o1_ofhmp_interfaces.Prelude.Result.{ok}
use sim_o1_ofhmp_interfaces.Text.{join}
use sim_o1_ofhmp_interfaces.Crypto.{Cryptography, generate_or_load_keys}
use sim_o1_ofhmp_interfaces.Crypto.Restart.{ReadsBack, generate_or_load_keys-restart}
use sim_o1_ofhmp_interfaces.Crypto.Pem.{
  no_markers, get_public_key_ssh_format, get_certificate_fingerprint,
}
use sim_o1_ofhmp_interfaces.Crypto.Pem.Lines.{unlines, no_markers-unlines}

abbrev plain : Cryptography String String String
plain = record {
  load_private = λ text. ok text;
  private_bytes = λ key. key;
  load_public = λ text. ok text;
  public_of = λ key. key;
  public_pem = λ key. key;
  public_ssh = λ key. "ssh-rsa " <> key;
  load_certificate = λ text. ok text;
  certificate_bytes = λ cert. cert;
  subject_of = λ cert. cert;
  build = λ order. order.issuer;
}

plain-ReadsBack : ReadsBack plain
plain-ReadsBack = record { private = λ key. refl; public = λ key. refl }

generate_or_load_keys-restart_example :
    generate_or_load_keys plain "later" (generate_or_load_keys plain "first" []).1
    ≡ generate_or_load_keys plain "first" []
generate_or_load_keys-restart_example =
    generate_or_load_keys-restart plain "first" "later" [] plain-ReadsBack

no_markers-unlines_example :
    no_markers (unlines ("-B" ∷ ("MII" ∷ "=" ∷ []) ++ "-E" ∷ [])) ≡ join "\n" ("MII" ∷ "=" ∷ [])
no_markers-unlines_example =
    no_markers-unlines "-B" "-E" ("MII" ∷ "=" ∷ [])
      ((refl, (refl, tt)), ((refl, (refl, (refl, tt))), ((refl, tt), ((refl, (refl, tt)), tt))))

fingerprint : get_certificate_fingerprint (0 ∷ 171 ∷ []) ≡ "02:00:AB"
unfolding get_certificate_fingerprint
fingerprint = refl

ssh_format : get_public_key_ssh_format "ssh-rsa AAAA user" ≡ ok "AAAA"
unfolding get_public_key_ssh_format
ssh_format = refl
