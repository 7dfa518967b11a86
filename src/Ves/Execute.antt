-- ===== src/Ves/Execute.antt =====
-- `Ves.execute`, with the lock held from its first line to its last.
use sim_o1_ofhmp_interfaces.Prelude.{
  ℕ, ◌+◌, String, Bool, true, false, ◌&&◌, ◌||◌, Option, none, some, [], ◌∷◌, ◌++◌, leb, ltb,
  if◌then◌else◌, ◌==◌, string_eq,
}
use sim_o1_ofhmp_interfaces.Prelude.Result.{Result, ok, err}
use sim_o1_ofhmp_interfaces.Prelude.Exec.{Exec, ◌>>◌}
use sim_o1_ofhmp_interfaces.Config.Reload.{Config}
use sim_o1_ofhmp_interfaces.Ves.{Message, Host, Session, Post}
use sim_o1_ofhmp_interfaces.Ves.Update.{update}

unfoldable pub auth_of : Config → Option (String × String)
auth_of c =
    if c.ves_username == "" || c.ves_password == ""
    then none
    else some (c.ves_username, c.ves_password)

abbrev pub post_of : Config → Message → Post
unfolding auth_of
post_of c m = record { url = c.ves_url; auth = auth_of c; contents = m.contents }

abbrev pub is_success : ℕ → Bool
is_success status = leb 200 status && ltb status 300

-- The request is made; the sequence number goes on if it succeeds.
unfoldable pub noted : Post → Bool → Session → Session
noted p accepted s = record s {
  seq_id = if accepted then s.seq_id + 1 else s.seq_id;
  exchanges = s.exchanges ++ record { post = p; accepted = accepted } ∷ [];
}

unfoldable pub answered : Post → Result ℕ → Exec Session Bool
unfolding noted
answered p (err e) s = (err e, noted p false s)
answered p (ok status) s = (ok (is_success status), noted p (is_success status) s)

-- What follows the update. Without an address nothing is sent, and the message counts as delivered.
unfoldable pub deliver : Config → (Post → Result ℕ) → Exec Session Bool
unfolding answered post_of
deliver c answer s =
    if c.ves_url == ""
    then (ok true, record s { seq_id = s.seq_id + 1 })
    else answered (post_of c s.message) (answer (post_of c s.message)) s

unfoldable pub execute : Config → Host → (Post → Result ℕ) → Exec Session Bool
unfolding update deliver
execute c h answer = do update c h; deliver c answer
