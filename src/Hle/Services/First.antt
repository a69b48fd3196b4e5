-- ===== src/Hle/Services/First.antt =====
-- The service that `find_service` of hle/src/service/srv.rs gives.
use pomelo.Prelude.{
  ℕ, zero, suc, ◌≡◌, ◌≤◌, refl, sym, ap, ◌∙◌, Bool, true, false, Bool-cases, inl, inr, Option, none,
  some, List, [], ◌∷◌, length, All, Run, ok, ◌>>=◌, Returns, returns, Returns-bind, Returns-mono,
  Returns-value, arith, ◌==◌, eq_of_==, ne_of_==,
}
use mathlib.Core.Path.{subst}
use pomelo.Kernel.Ports.{padded, same_name}
use pomelo.Kernel.Ports.Named.{same_name_self, equal_names}
use pomelo.Hle.Services.{
  Service, slice_to, same_bytes, answers, found_or, find_service, register_service,
}

-- The service has the name: as many bytes, and the same.
abbrev pub Named : List ℕ → ℕ → Service → Type 0
Named name name_len service =
    (service.name_len ≡ name_len) × (padded name_len service.name ≡ padded name_len name)

-- The first service of the list with the name, if there is one.
pub data Found (name : List ℕ) (name_len : ℕ) : List Service → Option Service → Type 0 where
  nowhere : Found name name_len [] none
  here :
      {s : Service} {ss : List Service}
      → Named name name_len s
      → Found name name_len (s ∷ ss) (some s)
  later :
      {s : Service} {ss : List Service} {r : Option Service}
      → ¬ Named name name_len s
      → Found name name_len ss r
      → Found name name_len (s ∷ ss) r

-- The counted bytes are in the array.
abbrev pub Counted : Service → Type 0
Counted service = service.name_len ≤ length service.name

slice_to_lem : (bytes : List ℕ) (n : ℕ) → n ≤ length bytes → slice_to bytes n ≡ ok (padded n bytes)
unfolding slice_to padded
slice_to_lem bytes zero le = refl
slice_to_lem [] (suc n) le = absurd (omega arith)
slice_to_lem (b ∷ bytes) (suc n) le = rw (slice_to_lem bytes n (omega arith), slice_to) refl

-- What the test says of a service.
abbrev Answer : List ℕ → ℕ → Service → Bool → Type 0
Answer name name_len service true = Named name name_len service
Answer name name_len service false = ¬ Named name name_len service

answers-Answer :
    (service : Service) (name : List ℕ) (name_len : ℕ)
    → Counted service
    → name_len ≤ length name
    → Returns (Answer name name_len service) (answers service name name_len)
unfolding answers same_bytes
answers-Answer service name name_len counted le = elim (Bool-cases (service.name_len == name_len)) [
  | inl t ↦
      let e : service.name_len ≡ name_len = eq_of_== service.name_len name_len t in
      let same : padded service.name_len service.name ≡ padded name_len service.name =
        ap (λ n. padded n service.name) e in
      rw (t, slice_to_lem service.name service.name_len counted, slice_to_lem name name_len le)
        (elim (Bool-cases
          (same_name (padded service.name_len service.name) (padded name_len name))) [
            | inl u ↦ rw u (returns (e, sym same ∙ equal_names _ _ u))
            | inr v ↦ rw v (
                returns (λ named.
                  let clash : true ≡ false =
                    sym (same_name_self (padded service.name_len service.name))
                    ∙ ap (same_name (padded service.name_len service.name)) (same ∙ named.1)
                    ∙ v in
                  ground arith))
          ])
  | inr f ↦ rw f (returns (λ named. ne_of_== service.name_len name_len f named.0))
]

found_or-Found :
    (hit : Bool) (service : Service) (services : List Service) (name : List ℕ) (name_len : ℕ)
    → Answer name name_len service hit
    → Returns (Found name name_len services) (find_service services name name_len)
    → Returns
        (Found name name_len (service ∷ services))
        (found_or hit service (find_service services name name_len))
found_or-Found true service services name name_len named rest = returns (here named)
found_or-Found false service services name name_len other rest =
    Returns-mono rest (λ r found. later other found)

-- For services whose counted bytes are in their arrays, and a name whose counted bytes are in its array,
-- the lookup ends without a panic, in the first service of the list with as many counted bytes and
-- the same ones, or in none if no service has them.
pub find_service-Found :
    (services : List Service) (name : List ℕ) (name_len : ℕ)
    → All Counted services
    → name_len ≤ length name
    → Returns (Found name name_len services) (find_service services name name_len)
unfolding find_service
find_service-Found [] name name_len counted le = returns nowhere
find_service-Found (service ∷ services) name name_len counted le =
    Returns-bind (answers-Answer service name name_len counted.0 le) (λ hit answer.
      found_or-Found hit service services name name_len answer
        (find_service-Found services name name_len counted.1 le))

-- The service that a lookup finds when one more service with the name is registered.
unfoldable pub or_new : Option Service → Service → Option Service
or_new none service = some service
or_new (some old) service = some old

hit_of :
    (hit : Bool) (service : Service) (name : List ℕ) (name_len : ℕ)
    → Answer name name_len service hit
    → Named name name_len service
    → hit ≡ true
hit_of true service name name_len answer named = refl
hit_of false service name name_len answer named = absurd (answer named)

answers_hit :
    (service : Service) (name : List ℕ) (name_len : ℕ)
    → Counted service
    → name_len ≤ length name
    → Named name name_len service
    → answers service name name_len ≡ ok true
answers_hit service name name_len counted le named =
    let (hit, e, answer) = Returns-value (answers-Answer service name name_len counted le) in
    e ∙ ap ok (hit_of hit service name name_len answer named)

found_or_new :
    (hit : Bool) (s service : Service) (before after : Run (Option Service))
    → Returns (λ r. after ≡ ok (or_new r service)) before
    → Returns (λ r. found_or hit s after ≡ ok (or_new r service)) (found_or hit s before)
unfolding or_new
found_or_new true s service before after rest = returns refl
found_or_new false s service before after rest = rest

-- When a service is registered, a lookup of its name gives it exactly if the lookup found no service
-- before; a service that was found before is still found.
pub find_service-register_service :
    (services : List Service) (service : Service) (name : List ℕ) (name_len : ℕ)
    → All Counted services
    → Counted service
    → name_len ≤ length name
    → Named name name_len service
    → Returns
        (λ before.
          find_service (register_service services service) name name_len
          ≡ ok (or_new before service))
        (find_service services name name_len)
unfolding find_service register_service or_new
find_service-register_service [] service name name_len counted last le named =
    returns (rw (answers_hit service name name_len last le named) refl)
find_service-register_service (s ∷ services) service name name_len counted last le named =
    let after = find_service (register_service services service) name name_len in
    let before = find_service services name name_len in
    let (hit, e, answer) = Returns-value (answers-Answer s name name_len counted.0 le) in
    subst
      (λ a.
        Returns (λ r. (a >>= λ h. found_or h s after) ≡ ok (or_new r service))
          (a >>= λ h. found_or h s before))
      (sym e)
      (found_or_new hit s service before after
        (find_service-register_service services service name name_len counted.1 last le named))
