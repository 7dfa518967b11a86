-- ===== src/Ves/Numbers.antt =====
-- The sequence numbers that the collector receives.
use mathlib.Core.Path.{ap₂}
use sim_o1_ofhmp_interfaces.Prelude.{
  subst, ne_text, ℕ, zero, suc, ◌+◌, Bool, true, false, Option, some, List, [], ◌∷◌, ◌++◌, ◌≡◌, ◌≢◌,
  refl, arith, ap, ◌∙◌, sym, if◌then◌else◌, string_eq,
}
use sim_o1_ofhmp_interfaces.Prelude.Result.{Result, ok, err}
use sim_o1_ofhmp_interfaces.Value.{Value, num}
use sim_o1_ofhmp_interfaces.Config.Reload.{Config}
use sim_o1_ofhmp_interfaces.Ves.{Event, Host, Session, Post, Exchange}
use sim_o1_ofhmp_interfaces.Ves.Update.{update}
use sim_o1_ofhmp_interfaces.Ves.Execute.{execute, deliver, answered, noted, is_success, post_of}
use sim_o1_ofhmp_interfaces.Ves.Updated.{with_new, number_of, IsUpdated, update-IsUpdated}

-- The numbers of the requests that the collector took, in order.
abbrev pub numbers : List Exchange → List (Option Value)
numbers [] = []
numbers (x ∷ l) = if x.accepted then number_of x.post.contents ∷ numbers l else numbers l

abbrev pub count_up : ℕ → List (Option Value)
count_up zero = []
count_up (suc n) = count_up n ++ some (num n) ∷ []

numbers-append :
    (l : List Exchange) (x : Exchange)
    → numbers (l ++ x ∷ [])
      ≡ (if x.accepted then numbers l ++ number_of x.post.contents ∷ [] else numbers l)
numbers-append [] x = ground arith
numbers-append (y ∷ l) x = ground (arith, numbers-append l x)

abbrev pub IsNumbered : Session → Type 0
IsNumbered s = numbers s.exchanges ≡ count_up s.seq_id

noted-IsNumbered :
    (p : Post) (b : Bool) (s : Session)
    → number_of p.contents ≡ some (num s.seq_id)
    → IsNumbered s
    → IsNumbered (noted p b s)
unfolding noted
noted-IsNumbered p false s e h = numbers-append s.exchanges _ ∙ h
noted-IsNumbered p true s e h =
    let next : suc s.seq_id ≡ s.seq_id + 1 = omega arith in
    numbers-append s.exchanges _ ∙ ap₂ (λ l x. l ++ x ∷ []) h e ∙ ap count_up next

answered-IsNumbered :
    (p : Post) (r : Result ℕ) (s : Session)
    → number_of p.contents ≡ some (num s.seq_id)
    → IsNumbered s
    → IsNumbered (answered p r s).1
unfolding answered
answered-IsNumbered p (err e) s = noted-IsNumbered p false s
answered-IsNumbered p (ok status) s = noted-IsNumbered p (is_success status) s

deliver-IsNumbered :
    (c : Config) (answer : Post → Result ℕ) (s : Session)
    → c.ves_url ≢ ""
    → number_of s.message.contents ≡ some (num s.seq_id)
    → IsNumbered s
    → IsNumbered (deliver c answer s).1
unfolding deliver
deliver-IsNumbered c answer s url e h =
    rw (ne_text c.ves_url "" url) (answered-IsNumbered (post_of c s.message) _ s e h)

pub execute-returns :
    (c : Config) (h : Host) (answer : Post → Result ℕ) (s : Session)
    → (update c h s).0 ≡ ok tt
    → execute c h answer s ≡ deliver c answer (update c h s).1
unfolding execute
execute-returns c h answer s e = rw e refl

execute-IsNumbered :
    (c : Config) (h : Host) (answer : Post → Result ℕ) (e : Event) (s : Session)
    → c.ves_url ≢ ""
    → IsNumbered s
    → IsNumbered (execute c h answer (with_new e s)).1
execute-IsNumbered c h answer e s url numbered =
    let done : IsUpdated s (update c h (with_new e s)) = update-IsUpdated c h e s in
    subst (λ r. IsNumbered r.1) (sym (execute-returns c h answer (with_new e s) done.returns))
      (deliver-IsNumbered c answer _ url (done.number ∙ ap (λ n. some (num n)) (sym done.seq_id))
        (ap numbers done.exchanges ∙ numbered ∙ ap count_up (sym done.seq_id)))

-- Messages one after another, each with what the host says and what the collector answers.
unfoldable pub execute_all : Config → List (Event × Host × (Post → Result ℕ)) → Session → Session
execute_all c [] s = s
execute_all c ((e, h, answer) ∷ l) s = execute_all c l (execute c h answer (with_new e s)).1

execute_all-steps :
    (c : Config) (l : List (Event × Host × (Post → Result ℕ))) (s : Session)
    → c.ves_url ≢ ""
    → IsNumbered s
    → IsNumbered (execute_all c l s)
unfolding execute_all
execute_all-steps c [] s url h = h
execute_all-steps c ((e, h, answer) ∷ l) s url numbered =
    execute_all-steps c l _ url (execute-IsNumbered c h answer e s url numbered)

-- Whatever messages are executed one after another, each a new one, and whatever the collector
-- answers or the requests raise: where an address is configured, the requests that the collector took
-- carry the numbers from 0 on, without gap or repetition, and the next number is how many it took.
pub execute_all-IsNumbered :
    (c : Config) (l : List (Event × Host × (Post → Result ℕ))) (s : Session)
    → c.ves_url ≢ ""
    → s.seq_id ≡ 0
    → s.exchanges ≡ []
    → numbers (execute_all c l s).exchanges ≡ count_up (execute_all c l s).seq_id
execute_all-IsNumbered c l s url e f =
    execute_all-steps c l s url (ap numbers f ∙ ap count_up (sym e))
