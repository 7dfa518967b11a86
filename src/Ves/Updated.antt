-- ===== src/Ves/Updated.antt =====
-- What one update does to a new message of any class, and to the counters.
use sim_o1_ofhmp_interfaces.Prelude.{
  subst, String, Bool, true, false, Option, none, some, List, [], ◌∷◌, ◌++◌, ◌≡◌, refl, sym, ◌⊎◌,
  inl, inr, ◌==◌, if◌then◌else◌, string_eq,
}
use sim_o1_ofhmp_interfaces.Prelude.Result.{Result, ok}
use sim_o1_ofhmp_interfaces.Value.{name, Value, num, str, get_path, put}
use sim_o1_ofhmp_interfaces.DictFactory.{assign}
use sim_o1_ofhmp_interfaces.Config.Reload.{Config}
use sim_o1_ofhmp_interfaces.Ves.{
  Event, heartbeat, alarm, file_ready, pnf_ssh, pnf_tls, notified, Host, Session,
}
use sim_o1_ofhmp_interfaces.Ves.Events.{fresh}
use sim_o1_ofhmp_interfaces.Prelude.Exec.{Exec, ◌>>◌}
use sim_o1_ofhmp_interfaces.Ves.Update.{
  update, update_event, header_fields, put_fields, update_header, namespace_fields,
}

-- A new message of an event takes the place of the message at hand.
abbrev pub with_new : Event → Session → Session
with_new e s = record s { message = fresh e }

abbrev pub number_of : Value → Option Value
number_of v = get_path v (name "event" ∷ name "commonEventHeader" ∷ name "sequence" ∷ [])

-- What an update of a new message does.
pub record IsUpdated (s : Session) (r : Result (Unit {0}) × Session) : Type 0 where
  pub returns : r.0 ≡ ok tt
  pub number : number_of r.1.message.contents ≡ some (num s.seq_id)
  pub seq_id : r.1.seq_id ≡ s.seq_id
  pub exchanges : r.1.exchanges ≡ s.exchanges

-- `update` with the fields that the namespace gives put in the place of what it computes.
abbrev pub with_fields : Config → Host → List (String × Value) → Exec Session (Unit {0})
with_fields c h l = do
  λ s.
      put_fields (name "event" ∷ name "commonEventHeader" ∷ [])
        (header_fields h s.message s.seq_id ++ l) s
  λ s. update_event c h s.message.event s

namespace_fields-cases :
    (n : Option String)
    → (namespace_fields n ≡ [])
      ⊎ ((x : String) × (namespace_fields n ≡ ("stndDefinedNamespace", str x) ∷ []))
unfolding namespace_fields
namespace_fields-cases none = inl refl
namespace_fields-cases (some n) = by_test (n == "")
  where
    by_test :
        (b : Bool)
        → let l : List (String × Value) = if b then [] else ("stndDefinedNamespace", str n) ∷ [] in
          (l ≡ []) ⊎ ((x : String) × (l ≡ ("stndDefinedNamespace", str x) ∷ []))
    by_test true = inl refl
    by_test false = inr (n, refl)

module _ (c : Config) (h : Host) (v : Value) (n : Option String) (schema notif_name : String)
    (s : Session) where
  abbrev wrapper : Option String → Session
  wrapper o = with_new (notified v n schema notif_name o) s

  bare-IsUpdated : (o : Option String) → IsUpdated s (with_fields c h [] (wrapper o))
  unfolding update_event fresh get_path assign put put_fields
  bare-IsUpdated none = record { returns = refl; number = refl; seq_id = refl; exchanges = refl }
  bare-IsUpdated (some x) = record {
    returns = refl;
    number = refl;
    seq_id = refl;
    exchanges = refl;
  }

  spaced-IsUpdated :
      (x : String) (o : Option String)
      → IsUpdated s (with_fields c h (("stndDefinedNamespace", str x) ∷ []) (wrapper o))
  unfolding update_event fresh get_path assign put put_fields
  spaced-IsUpdated x none = record {
    returns = refl;
    number = refl;
    seq_id = refl;
    exchanges = refl;
  }
  spaced-IsUpdated x (some y) = record {
    returns = refl;
    number = refl;
    seq_id = refl;
    exchanges = refl;
  }

  notification-IsUpdated : (o : Option String) → IsUpdated s (update c h (wrapper o))
  unfolding update update_header fresh
  notification-IsUpdated o = elim (namespace_fields-cases n) [
    | inl e ↦ subst (λ l. IsUpdated s (with_fields c h l (wrapper o))) (sym e) (bare-IsUpdated o)
    | inr (x, e) ↦
        subst (λ l. IsUpdated s (with_fields c h l (wrapper o))) (sym e) (spaced-IsUpdated x o)
  ]

pub update-IsUpdated :
    (c : Config) (h : Host) (e : Event) (s : Session) → IsUpdated s (update c h (with_new e s))
unfolding update fresh get_path assign put
update-IsUpdated c h (heartbeat i) s = record {
  returns = refl;
  number = refl;
  seq_id = refl;
  exchanges = refl;
}
update-IsUpdated c h alarm s = record {
  returns = refl;
  number = refl;
  seq_id = refl;
  exchanges = refl;
}
update-IsUpdated c h (file_ready f n x) s = record {
  returns = refl;
  number = refl;
  seq_id = refl;
  exchanges = refl;
}
update-IsUpdated c h (pnf_ssh p u w a) s = record {
  returns = refl;
  number = refl;
  seq_id = refl;
  exchanges = refl;
}
update-IsUpdated c h (pnf_tls n p a) s = record {
  returns = refl;
  number = refl;
  seq_id = refl;
  exchanges = refl;
}
update-IsUpdated c h (notified v n m f o) s = notification-IsUpdated c h v n m f s o
