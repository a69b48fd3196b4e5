-- ===== src/Kernel/Ports/Named.antt =====
-- kernel/src/lib.rs: a registered port is found under its name, and a name with other bytes sees no change.
use pomelo.Prelude.{
  ℕ, ◌≡◌, ◌≤◌, refl, sym, ap, ◌∙◌, true, false, Bool-cases, inl, inr, none, some, List, [], ◌∷◌,
  length, Returns, returns, arith, leb_of_le, ltb, ltb-ge, lt→ltb, ==_self, ◌<◌, ◌≢◌, get_or,
  if◌then◌else◌,
}
use pomelo.Kernel.Ports.Padded.{byte_at, get_or-padded, padded_eq}
use pomelo.Kernel.Ports.{
  short_name, same_name, PortTable, port_at, with_port, register_port, lookup_port,
}

pub same_name_self : (a : List ℕ) → same_name a a ≡ true
same_name_self [] = refl
same_name_self (x ∷ xs) = rw (==_self x, same_name_self xs) refl

-- Names that are the same look the same to every name.
same_name_cong : (a b c : List ℕ) → same_name a b ≡ true → same_name a c ≡ same_name b c
same_name_cong [] [] c e = refl
same_name_cong [] (b ∷ bs) c e = ground arith
same_name_cong (a ∷ more) [] c e = ground arith
same_name_cong (a ∷ more) (b ∷ bs) [] e = refl
same_name_cong (a ∷ more) (b ∷ bs) (c ∷ cs) e = ground (arith, same_name_cong more bs cs)

pub equal_names : (a b : List ℕ) → same_name a b ≡ true → a ≡ b
equal_names [] [] e = refl
equal_names [] (b ∷ bs) e = ground arith
equal_names (a ∷ more) [] e = ground arith
equal_names (a ∷ more) (b ∷ bs) e = ground (arith, equal_names more bs)

port_at-with_port :
    (ports : PortTable) (name : List ℕ) (port : ℕ) (other : List ℕ)
    → port_at (with_port ports name port) other
      ≡ (if same_name name other then some port else port_at ports other)
unfolding port_at with_port
port_at-with_port [] name port other = refl
port_at-with_port (x ∷ xs) name port other = elim (Bool-cases (same_name x.0 name)) [
  | inl t ↦ rw t (elim (Bool-cases (same_name name other)) [
    | inl u ↦ rw u refl
    | inr v ↦ rw (v, same_name_cong x.0 name other t ∙ v) refl
  ])
  | inr f ↦ rw f (elim (Bool-cases (same_name x.0 other)) [
    | inl u ↦ elim (Bool-cases (same_name name other)) [
      | inl same ↦
          let clash : false ≡ true = sym f ∙ ap (same_name x.0) (equal_names name other same) ∙ u in
          ground arith
      | inr differs ↦ rw (u, differs) refl
    ]
    | inr v ↦ rw v (port_at-with_port xs name port other)
  ])
]

-- Another byte at one of the first eight places makes another key.
other_key :
    (name other : List ℕ) (i : ℕ)
    → i < 8
    → byte_at name i ≢ byte_at other i
    → same_name (short_name name) (short_name other) ≡ false
other_key name other i lt differs =
    elim (Bool-cases (same_name (short_name name) (short_name other))) [
      | inl t ↦ absurd (
          differs (
            sym (get_or-padded 8 name i lt)
            ∙ ap (λ l. get_or l i 0) (equal_names (short_name name) (short_name other) t)
            ∙ get_or-padded 8 other i lt))
      | inr f ↦ f
    ]

-- A port that is registered under a name of at most eight bytes is found under it, and under every other
-- name of at most eight bytes that has the same byte at each of the first eight places, where a place
-- behind the end of a name counts as 0. A name with another byte at one of these places finds what it found
-- before, and a name of more than eight bytes finds nothing.
pub lookup_port-register_port :
    (ports : PortTable) (name : List ℕ) (port : ℕ)
    → length name ≤ 8
    → Returns
        (λ after.
          (lookup_port after name ≡ some port)
          × ((other : List ℕ)
              → length other ≤ 8
              → ((i : ℕ) → i < 8 → byte_at name i ≡ byte_at other i)
              → lookup_port after other ≡ some port)
          × ((other : List ℕ) (i : ℕ)
              → i < 8
              → byte_at name i ≢ byte_at other i
              → lookup_port after other ≡ lookup_port ports other)
          × ((other : List ℕ) → 8 < length other → lookup_port after other ≡ none))
        (register_port ports name port)
unfolding register_port lookup_port
lookup_port-register_port ports name port short =
    let key = short_name name in
    let found : (other : List ℕ)
        → length other ≤ 8
        → key ≡ short_name other
        → (if ltb 8 (length other)
            then none
            else port_at (with_port ports key port) (short_name other))
          ≡ some port =
      λ other few same.
        rw (ltb-ge _ _ few, ← same, port_at-with_port ports key port key, same_name_self key)
          refl in
    rw (leb_of_le _ _ short) (
      returns (
        found name short refl,
        λ other few same. found other few (padded_eq 8 name other same),
        λ other i lt differs.
            ap (λ p. if ltb 8 (length other) then none else p)
              (port_at-with_port ports key port (short_name other)
                ∙ rw (other_key name other i lt differs) refl),
        λ other long. rw (lt→ltb _ _ long) refl,
      ))
