-- ===== src/Oru/Allow/Round.antt =====
-- What one request and one round of the loop do to the flags, and to what was accepted.
use mathlib.Core.Path.{ap₂}
use sim_o1_ofhmp_interfaces.Prelude.{
  ℕ, ◌+◌, ◌≤◌, ◌<◌, String, Bool, true, false, ◌&&◌, List, [], ◌∷◌, ◌++◌, length, length-append,
  ◌≡◌, refl, ◌∙◌, ap, arith, ◌⊎◌, inl, inr, if◌then◌else◌,
}
use sim_o1_ofhmp_interfaces.Prelude.Result.{Result, ok, err, request_error}
use sim_o1_ofhmp_interfaces.Prelude.Exec.{pure, continue}
use sim_o1_ofhmp_interfaces.Config.Reload.{Config}
use sim_o1_ofhmp_interfaces.Ves.Execute.{is_success}
use sim_o1_ofhmp_interfaces.Oru.Allow.{
  Call, remove_certificate, add_certificate, allow_device, Request, Exchange, Answers, request_of,
  noted, ask, try_request, Payloads, replace_certificate, allow_once, pass,
}

abbrev pub call_eq : Call → Call → Bool
call_eq remove_certificate remove_certificate = true
call_eq add_certificate add_certificate = true
call_eq allow_device allow_device = true
call_eq _ _ = false

-- How many requests of a kind were accepted.
abbrev pub count_accepted : Call → List Exchange → ℕ
count_accepted call [] = 0
count_accepted call (x ∷ l) =
    (if x.accepted && call_eq x.request.call call then 1 else 0) + count_accepted call l

count_accepted-append :
    (call : Call) (l : List Exchange) (x : Exchange)
    → count_accepted call (l ++ x ∷ [])
      ≡ count_accepted call l + (if x.accepted && call_eq x.request.call call then 1 else 0)
count_accepted-append call [] x = omega arith
count_accepted-append call (y ∷ l) x = omega (arith, count_accepted-append call l x)

-- A request is answered, or raises a RequestException.
abbrev pub Answered : Answers → Type 0
Answered answers =
    (i : ℕ) (q : Request)
    → (answers i q ≡ err request_error) ⊎ ((status : ℕ) × (answers i q ≡ ok status))

-- From the n-th request on, all are accepted.
abbrev pub AcceptsFrom : ℕ → Answers → Type 0
AcceptsFrom n answers =
    (i : ℕ) (q : Request)
    → n ≤ i
    → (status : ℕ) × (answers i q ≡ ok status) × (is_success status ≡ true)

-- What one request does.
pub record Tried (n : ℕ) (q : Request) (s : List Exchange) (r : Result Bool × List Exchange)
    : Type 0 where
  pub accepted : Bool
  pub is : r ≡ (ok accepted, noted q accepted s)
  pub late : n ≤ length s → accepted ≡ true

module _ (answers : Answers) (n : ℕ) (answered : Answered answers)
    (accepts : AcceptsFrom n answers) where
  try_request-Tried : (q : Request) (s : List Exchange) → Tried n q s (try_request answers q s)
  unfolding try_request ask
  try_request-Tried q s = elim (answered (length s) q) [
    | inl e ↦ record {
      accepted = false;
      is = rw (e, ask) refl;
      late = λ le. let (status, f, good) = accepts (length s) q le in cc;
    }
    | inr (status, e) ↦ record {
      accepted = is_success status;
      is = rw (e, ask) refl;
      late = λ le. let (got, f, good) = accepts (length s) q le in cc;
    }
  ]

-- How many additions of the certificate, and how many devices, were accepted.
pub record IsOnce (done : Bool × Bool) (s : List Exchange) : Type 0 where
  pub added : count_accepted add_certificate s ≡ (if done.0 then 1 else 0)
  pub allowed : count_accepted allow_device s ≡ (if done.1 then 1 else 0)

-- What one part of a round does: its own flag and count move together, the other count stays.
pub record Part (n : ℕ) (own other : Call) (flag : Bool) (s : List Exchange)
    (r : Result Bool × List Exchange) : Type 0 where
  pub next : Bool
  pub sent : List Exchange
  pub is : r ≡ (ok next, sent)
  pub keeps : count_accepted other sent ≡ count_accepted other s
  pub counts :
      count_accepted own s ≡ (if flag then 1 else 0)
      → count_accepted own sent ≡ (if next then 1 else 0)
  pub late : n ≤ length s → next ≡ true
  pub grows : length s + (if flag then 0 else 1) ≤ length sent

module _ (c : Config) (hostname : String) (answers : Answers) (p : Payloads) (n : ℕ)
    (answered : Answered answers) (accepts : AcceptsFrom n answers) where
  allow_once-Part :
      (flag : Bool) (s : List Exchange)
      → Part n allow_device add_certificate flag s (allow_once c hostname answers p flag s)
  unfolding allow_once
  allow_once-Part true s = record {
    next = true;
    sent = s;
    is = refl;
    keeps = refl;
    counts = λ h. h;
    late = λ le. refl;
    grows = omega arith;
  }
  allow_once-Part false s =
      let q : Request = request_of c hostname allow_device p.allow in
      let t : Tried n q s (try_request answers q s) =
        try_request-Tried answers n answered accepts q s in
      record {
        next = t.accepted;
        sent = noted q t.accepted s;
        is = t.is;
        keeps = ground (
          arith,
          count_accepted-append add_certificate s (record { request = q; accepted = t.accepted }),
        );
        counts = λ h. ground (
          arith,
          count_accepted-append allow_device s (record { request = q; accepted = t.accepted }),
        );
        late = t.late;
        grows = omega (arith, length-append s (record { request = q; accepted = t.accepted } ∷ []));
      }

  replace_certificate-Part :
      (flag : Bool) (s : List Exchange)
      → Part n add_certificate allow_device flag s (replace_certificate c hostname answers p flag s)
  unfolding replace_certificate
  replace_certificate-Part true s = record {
    next = true;
    sent = s;
    is = refl;
    keeps = refl;
    counts = λ h. h;
    late = λ le. refl;
    grows = omega arith;
  }
  replace_certificate-Part false s =
      let q : Request = request_of c hostname remove_certificate p.remove in
      let t : Tried n q s (try_request answers q s) =
        try_request-Tried answers n answered accepts q s in
      let u : List Exchange = noted q t.accepted s in
      let x : Request = request_of c hostname add_certificate p.add in
      let v : Tried n x u (try_request answers x u) =
        try_request-Tried answers n answered accepts x u in
      record {
        next = v.accepted;
        sent = noted x v.accepted u;
        is = ap (λ r. continue r.0 (λ _. try_request answers x) r.1) t.is ∙ v.is;
        keeps = ground (
          arith,
          count_accepted-append allow_device s (record { request = q; accepted = t.accepted }),
          count_accepted-append allow_device u (record { request = x; accepted = v.accepted }),
        );
        counts = λ h. ground (
          arith,
          count_accepted-append add_certificate s (record { request = q; accepted = t.accepted }),
          count_accepted-append add_certificate u (record { request = x; accepted = v.accepted }),
        );
        late = λ le.
            v.late
              (omega (arith, length-append s (record { request = q; accepted = t.accepted } ∷ [])));
        grows = omega (
          arith,
          length-append s (record { request = q; accepted = t.accepted } ∷ []),
          length-append u (record { request = x; accepted = v.accepted } ∷ []),
        );
      }

  -- What a round does.
  pub record Passed (done : Bool × Bool) (s : List Exchange)
      (r : Result (Bool × Bool) × List Exchange) : Type 0 where
    pub next : Bool × Bool
    pub sent : List Exchange
    pub is : r ≡ (ok next, sent)
    pub once : IsOnce next sent
    pub late : n ≤ length s → next ≡ (true, true)
    pub grows : (done.0 && done.1) ≡ false → length s < length sent

  pub pass-Passed :
      (done : Bool × Bool) (s : List Exchange)
      → IsOnce done s
      → Passed done s (pass c hostname answers p done s)
  unfolding pass
  pass-Passed (f, g) s h =
      let a = replace_certificate-Part f s in
      let b = allow_once-Part g a.sent in
      record {
        next = (a.next, b.next);
        sent = b.sent;
        is =
            ap
              (λ r.
                continue r.0
                  (λ x t.
                    continue (allow_once c hostname answers p g t).0 (λ y. pure (x, y))
                      (allow_once c hostname answers p g t).1)
                  r.1)
              a.is
            ∙ ap (λ r. continue r.0 (λ y. pure (a.next, y)) r.1) b.is;
        once = record {
          added = b.keeps ∙ a.counts h.added;
          allowed = b.counts (a.keeps ∙ h.allowed);
        };
        late = λ le. ap₂ (λ x y. (x, y)) (a.late le) (b.late (omega (arith, a.grows)));
        grows = λ e. ground (arith, a.grows, b.grows);
      }
