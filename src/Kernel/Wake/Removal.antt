-- ===== src/Kernel/Wake/Removal.antt =====
-- kernel/src/lib.rs: what `remove_wakers_by_opaque_id` over the objects of a wait leaves in the queues.
use pomelo.Prelude.{
  ℕ, ◌≡◌, refl, ap, ◌∙◌, Bool, Option, none, some, List, [], ◌∷◌, map, retain, has, ◌==◌,
  if◌then◌else◌, inl, inr, Bool-cases,
}
use pomelo.Kernel.World.{Waker, Object, Objects, check_opaque_id}
use pomelo.Kernel.Wake.{
  drop_thread, drop_thread_addr, remove_wakers, remove_in, remove_at, remove_all,
}

retain-retain {ℓ} : {A : Type ℓ} (p : A → Bool) (q : List A) → retain p (retain p q) ≡ retain p q
retain-retain p [] = refl
retain-retain p (x ∷ xs) = elim (Bool-cases (p x)) [
  | inl e ↦ rw (e, e) (ap (λ r. x ∷ r) (retain-retain p xs))
  | inr e ↦ rw e (retain-retain p xs)
]

remove_wakers_twice :
    (id : ℕ) (x : Object) → remove_wakers id (remove_wakers id x) ≡ remove_wakers id x
remove_wakers_twice id (Object.event s q) = ap (Object.event s) (retain-retain _ q)
remove_wakers_twice id (Object.mutex a q) = ap (Object.mutex a) (retain-retain _ q)
remove_wakers_twice id (Object.timer s q n i) = ap (λ r. Object.timer s r n i) (retain-retain _ q)
remove_wakers_twice id (Object.arbiter q) = ap Object.arbiter (retain-retain _ q)
remove_wakers_twice id (Object.thread t d q) = ap (Object.thread t d) (retain-retain _ q)
remove_wakers_twice id (Object.server_session q r c) =
    ap (λ x. Object.server_session x r c) (retain-retain _ q)
remove_wakers_twice id (Object.client_session q s) =
    ap (λ x. Object.client_session x s) (retain-retain _ q)
remove_wakers_twice id (Object.server_port q r c) =
    ap (λ x. Object.server_port x r c) (retain-retain _ q)
remove_wakers_twice id (Object.client_port q s) =
    ap (λ x. Object.client_port x s) (retain-retain _ q)
remove_wakers_twice id Object.codeset = refl

remove_in_twice : (id : ℕ) (x : Option Object) → remove_in id (remove_in id x) ≡ remove_in id x
remove_in_twice id none = refl
remove_in_twice id (some x) = ap some (remove_wakers_twice id x)

-- The loop over the awaited objects purges exactly those.
pub remove_all-at :
    (id : ℕ) (os : List ℕ) (s : Objects) (p : ℕ)
    → remove_all id os s p ≡ (if has p os then remove_in id (s p) else s p)
unfolding remove_all
remove_all-at id [] s p = refl
remove_all-at id (o ∷ os) s p = elim (Bool-cases (p == o)) [
  | inl e ↦
      remove_all-at id os (remove_at id o s) p
      ∙ rw (e)
          (elim (Bool-cases (has p os)) [ inl h ↦ rw h (remove_in_twice id (s p)) | inr h ↦ rw h ])
  | inr e ↦ remove_all-at id os (remove_at id o s) p ∙ rw (e)
]

-- The wakers that wait in an object.
abbrev pub queue_of : Option Object → List Waker
queue_of none = []
queue_of (some (Object.event s q)) = q
queue_of (some (Object.mutex a q)) = q
queue_of (some (Object.timer s q n i)) = q
queue_of (some (Object.arbiter q)) = map (λ e. e.0) q
queue_of (some (Object.thread t d q)) = q
queue_of (some (Object.server_session q r c)) = q
queue_of (some (Object.client_session q s)) = q
queue_of (some (Object.server_port q r c)) = q
queue_of (some (Object.client_port q s)) = q
queue_of (some Object.codeset) = []

map-drop :
    (id : ℕ) (q : List (Waker × ℕ))
    → map (λ e. e.0) (drop_thread_addr id q) ≡ drop_thread id (map (λ e. e.0) q)
map-drop id [] = refl
map-drop id (x ∷ xs) = elim (Bool-cases (check_opaque_id x.0 id)) [
  | inl e ↦ rw e (map-drop id xs)
  | inr e ↦ rw e (ap (λ r. x.0 ∷ r) (map-drop id xs))
]

pub queue_of-remove_in :
    (id : ℕ) (x : Option Object) → queue_of (remove_in id x) ≡ drop_thread id (queue_of x)
queue_of-remove_in id none = refl
queue_of-remove_in id (some (Object.arbiter q)) = map-drop id q
queue_of-remove_in id (some Object.codeset) = refl
queue_of-remove_in id (some (Object.event s q)) = refl
queue_of-remove_in id (some (Object.mutex a q)) = refl
queue_of-remove_in id (some (Object.timer s q n i)) = refl
queue_of-remove_in id (some (Object.thread t d q)) = refl
queue_of-remove_in id (some (Object.server_session q r c)) = refl
queue_of-remove_in id (some (Object.client_session q s)) = refl
queue_of-remove_in id (some (Object.server_port q r c)) = refl
queue_of-remove_in id (some (Object.client_port q s)) = refl
