-- ===== src/Crypto/Restart.antt =====
-- The keys after a restart of the program.
use mathlib.Core.Path.{ap₂}
use sim_o1_ofhmp_interfaces.Prelude.{
  Bool, true, false, ◌&&◌, none, some, ◌≡◌, refl, sym, ap, ◌∙◌, arith, Bool-cases, ◌⊎◌, inl, inr,
  if◌then◌else◌, string_eq,
}
use sim_o1_ofhmp_interfaces.Prelude.Result.{Result, ok, err, exception}
use sim_o1_ofhmp_interfaces.Prelude.Exec.{Exec, continue}
use sim_o1_ofhmp_interfaces.Prelude.Dict.{lookup, insert, lookup-insert}
use sim_o1_ofhmp_interfaces.DictFactory.{or_raise}
use sim_o1_ofhmp_interfaces.Crypto.{
  private_key_path, public_key_path, Cryptography, Files, read, write, exists, load_keys,
  generate_keys, generate_or_load_keys,
}

-- What the package documents: what was written is read back.
pub record ReadsBack {Key Public Certificate : Type 0} (lib : Cryptography Key Public Certificate)
    : Type 0 where
  pub private : (k : Key) → lib.load_private (lib.private_bytes k) ≡ ok k
  pub public : (p : Public) → lib.load_public (lib.public_pem p) ≡ ok p

module _ {Key Public Certificate : Type 0} (lib : Cryptography Key Public Certificate) where
  after_read :
      {A B : Type 0} (r : Result A) (f : A → Exec Files B) (s : Files)
      → ((a : A) → (f a s).1 ≡ s)
      → (continue r f s).1 ≡ s
  after_read (err e) f s h = refl
  after_read (ok a) f s h = h a

  load_keys-files : (s : Files) → (load_keys lib s).1 ≡ s
  unfolding load_keys read
  load_keys-files s =
      after_read (or_raise exception (lookup private_key_path s)) _ s λ private_text.
        after_read (lib.load_private private_text) _ s λ key.
          after_read (or_raise exception (lookup public_key_path s)) _ s
            λ public_text. after_read (lib.load_public public_text) _ s λ public_key. refl

  -- The files after new keys were written.
  abbrev written : Key → Files → Files
  written key s =
      insert public_key_path (lib.public_pem (lib.public_of key))
        (insert private_key_path (lib.private_bytes key) s)

  generate_keys-files : (key : Key) (s : Files) → (generate_keys lib key s).1 ≡ written key s
  unfolding generate_keys write
  generate_keys-files key s = refl

  lookup-private :
      (key : Key) (s : Files)
      → lookup private_key_path (written key s) ≡ some (lib.private_bytes key)
  lookup-private key s =
      lookup-insert public_key_path private_key_path _ _
      ∙ lookup-insert private_key_path private_key_path _ s

  lookup-public :
      (key : Key) (s : Files)
      → lookup public_key_path (written key s) ≡ some (lib.public_pem (lib.public_of key))
  lookup-public key s = lookup-insert public_key_path public_key_path _ _

  exists-written :
      (key : Key) (s : Files)
      → (exists private_key_path (written key s) && exists public_key_path (written key s)) ≡ true
  unfolding exists
  exists-written key s =
      ap₂
        (λ a b.
          elim a as (λ _. Bool) [ none ↦ false | some text ↦ true ]
          && elim b as (λ _. Bool) [ none ↦ false | some text ↦ true ])
        (lookup-private key s) (lookup-public key s)

  load_keys-written :
      (key : Key) (s : Files)
      → ReadsBack lib
      → load_keys lib (written key s) ≡ generate_keys lib key s
  unfolding load_keys generate_keys read write or_raise
  load_keys-written key s h = ground (
    arith,
    lookup-private key s,
    h.private key,
    lookup-public key s,
    h.public (lib.public_of key),
  )

  when_there :
      (key : Key) (s : Files)
      → (exists private_key_path s && exists public_key_path s) ≡ true
      → generate_or_load_keys lib key s ≡ load_keys lib s
  unfolding generate_or_load_keys
  when_there key s e = ap (λ b. if b then load_keys lib s else generate_keys lib key s) e

  when_new :
      (key : Key) (s : Files)
      → (exists private_key_path s && exists public_key_path s) ≡ false
      → generate_or_load_keys lib key s ≡ generate_keys lib key s
  unfolding generate_or_load_keys
  when_new key s e = ap (λ b. if b then load_keys lib s else generate_keys lib key s) e

  -- Whatever files there are: when the program starts again, with whatever key it would generate, it
  -- has the keys that it had before, or raises what it raised before, and leaves the files.
  pub generate_or_load_keys-restart :
      (key later_key : Key) (s : Files)
      → ReadsBack lib
      → generate_or_load_keys lib later_key (generate_or_load_keys lib key s).1
        ≡ generate_or_load_keys lib key s
  generate_or_load_keys-restart key later_key s h =
      by_test (Bool-cases (exists private_key_path s && exists public_key_path s))
    where
      by_test :
          ((exists private_key_path s && exists public_key_path s) ≡ true)
            ⊎ ((exists private_key_path s && exists public_key_path s) ≡ false)
          → generate_or_load_keys lib later_key (generate_or_load_keys lib key s).1
            ≡ generate_or_load_keys lib key s
      by_test (inl there) =
          ap (λ r. generate_or_load_keys lib later_key r.1) (when_there key s there)
          ∙ ap (generate_or_load_keys lib later_key) (load_keys-files s)
          ∙ when_there later_key s there
          ∙ sym (when_there key s there)
      by_test (inr new) =
          ap (λ r. generate_or_load_keys lib later_key r.1) (when_new key s new)
          ∙ ap (generate_or_load_keys lib later_key) (generate_keys-files key s)
          ∙ when_there later_key (written key s) (exists-written key s)
          ∙ load_keys-written key s h
          ∙ sym (when_new key s new)
