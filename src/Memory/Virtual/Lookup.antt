-- ===== src/Memory/Virtual/Lookup.antt =====
-- kernel/src/memory/virt.rs: `lookup` finds the span that holds a page.
use mathlib.Core.Path.{subst}
use pomelo.Prelude.{
  Bool, some-inj, ltb→lt, ltb-ge, leb_of_le, ℕ, ◌+◌, ◌-◌, ◌%◌, ◌^◌, ◌≤◌, ◌<◌, ◌≡◌, ◌⊎◌, inl, inr,
  Bool-cases, refl, sym, ap, ◌∙◌, Option, none, some, [], ◌∷◌, All, leb, ltb, ◌&&◌, if◌then◌else◌,
  arith, true, false,
}
use pomelo.Memory.Virtual.{PageSpan, Spans, later, last_before, reaches, lookup}

module _ {M T : Type 0} where
  -- The span of the entry has the page.
  abbrev pub has_page : ℕ × PageSpan M T → ℕ → Bool
  has_page x page = leb x.0 page && ltb page (x.0 + x.1.size)

  -- The first entry whose span has the page, with the page's place in it.
  abbrev pub holder : Spans M T → ℕ → Option ((ℕ × PageSpan M T) × ℕ)
  holder [] page = none
  holder (x ∷ xs) page = if has_page x page then some (x, page - x.0) else holder xs page

  -- Neither span reaches into the other.
  abbrev pub Clear : ℕ × PageSpan M T → ℕ × PageSpan M T → Type 0
  Clear x y = (x.0 + x.1.size ≤ y.0) ⊎ (y.0 + y.1.size ≤ x.0)

  -- No span is empty or reaches beyond the address space, and no two have a page in common.
  abbrev pub Separate : Spans M T → Type 0
  Separate [] = Unit {0}
  Separate (x ∷ xs) = ((0 < x.1.size) × (x.0 + x.1.size < 2 ^ 32)) × All (Clear x) xs × Separate xs

  last_before-All :
      (P : ℕ × PageSpan M T → Type 0) (xs : Spans M T) (page : ℕ) (b : ℕ × PageSpan M T)
      → All P xs
      → last_before xs page ≡ some b
      → P b × (b.0 ≤ page)
  unfolding last_before
  last_before-All P [] page b h e = ground arith
  last_before-All P (x ∷ xs) page b h e = elim (Bool-cases (leb x.0 page)) [
    | inl t ↦
        subst (λ z. P z × (z.0 ≤ page)) (some-inj (rw t at e))
          (later-All (last_before xs page) (λ y e'. last_before-All P xs page y h.1 e') refl
            (ground arith))
    | inr f ↦ last_before-All P xs page b h.1 (rw f at e)
  ]
    where
      later-All :
          (o : Option (ℕ × PageSpan M T))
          → ((y : ℕ × PageSpan M T) → last_before xs page ≡ some y → P y × (y.0 ≤ page))
          → last_before xs page ≡ o
          → x.0 ≤ page
          → P (later x o) × ((later x o).0 ≤ page)
      later-All none rest e le = (h.0, le)
      later-All (some y) rest e le = elim (Bool-cases (ltb x.0 y.0)) [
        | inl t ↦ rw t (rest y e)
        | inr f ↦ rw f (h.0, le)
      ]

  -- A span that does not reach to the page, or the only one that can.
  decides :
      (x : ℕ × PageSpan M T) (xs : Spans M T) (page : ℕ)
      → x.0 ≤ page
      → x.0 + x.1.size < 2 ^ 32
      → holder xs page ≡ none
      → reaches x page ≡ holder (x ∷ xs) page
  decides x xs page le small others =
      let whole : (x.0 + x.1.size) % 2 ^ 32 ≡ x.0 + x.1.size = omega arith in
      let starts : leb x.0 page ≡ true = ground arith in rw (whole, starts, others) refl

  passed :
      (x : ℕ × PageSpan M T) (xs : Spans M T) (page : ℕ)
      → has_page x page ≡ false
      → holder (x ∷ xs) page ≡ holder xs page
  passed x xs page off = ap (λ t. if t then some (x, page - x.0) else holder xs page) off

  short :
      (y : ℕ × PageSpan M T) (page : ℕ)
      → y.0 + y.1.size ≤ page
      → y.0 + y.1.size < 2 ^ 32
      → reaches y page ≡ none
  short y page le small =
      let whole : (y.0 + y.1.size) % 2 ^ 32 ≡ y.0 + y.1.size = omega arith in
      let no : ltb page (y.0 + y.1.size) ≡ false = ground arith in
      rw whole (ap (λ t. if t then some (y, page - y.0) else none) no)

  abbrev reached : Option (ℕ × PageSpan M T) → ℕ → Option ((ℕ × PageSpan M T) × ℕ)
  reached none page = none
  reached (some y) page = reaches y page

  lookup-reached :
      (xs : Spans M T) (page : ℕ) (o : Option (ℕ × PageSpan M T))
      → last_before xs page ≡ o
      → lookup xs page ≡ reached o page
  unfolding lookup
  lookup-reached xs page none e = rw (e, lookup) refl
  lookup-reached xs page (some y) e = rw (e, lookup) refl

  last_before-later :
      (x : ℕ × PageSpan M T) (xs : Spans M T) (page : ℕ)
      → last_before (x ∷ xs) page
        ≡ (if leb x.0 page then some (later x (last_before xs page)) else last_before xs page)
  unfolding last_before
  last_before-later x xs page = refl

  ends_bounded : (xs : Spans M T) → Separate xs → All (λ y. y.0 + y.1.size < 2 ^ 32) xs
  ends_bounded [] h = tt
  ends_bounded (x ∷ xs) h = (h.0.1, ends_bounded xs h.2)

  -- For spans of which no two have a page in common, `lookup` gives the span that has the page and the
  -- page's place in it, and nothing if there is none.
  pub lookup-holder : (xs : Spans M T) (page : ℕ) → Separate xs → lookup xs page ≡ holder xs page
  unfolding lookup last_before
  lookup-holder [] page h = refl
  lookup-holder (x ∷ xs) page h = elim (Bool-cases (leb x.0 page)) [
    | inl t ↦
        lookup-reached (x ∷ xs) page (some (later x (last_before xs page)))
          (ap (λ t. if t then some (later x (last_before xs page)) else last_before xs page) t)
        ∙ starts (last_before xs page) (lookup-holder xs page h.2) refl (ground arith)
    | inr f ↦
        let off : has_page x page ≡ false = ap (λ t. t && ltb page (x.0 + x.1.size)) f in
        lookup-reached (x ∷ xs) page (last_before xs page)
          (ap (λ t. if t then some (later x (last_before xs page)) else last_before xs page) f)
        ∙ sym (lookup-reached xs page (last_before xs page) refl)
        ∙ lookup-holder xs page h.2
        ∙ sym (passed x xs page off)
  ]
    where
      starts :
          (o : Option (ℕ × PageSpan M T))
          → lookup xs page ≡ holder xs page
          → last_before xs page ≡ o
          → x.0 ≤ page
          → reaches (later x o) page ≡ holder (x ∷ xs) page
      starts none same e le = decides x xs page le h.0.1 (sym same ∙ lookup-reached xs page none e)
      starts (some y) same e le =
          let clear = last_before-All (Clear x) xs page y h.1 e in
          let small =
            last_before-All (λ z. z.0 + z.1.size < 2 ^ 32) xs page y (ends_bounded xs h.2) e in
          elim (Bool-cases (ltb x.0 y.0)) [
            | inl t ↦
                let off : has_page x page ≡ false =
                  (let past : x.0 + x.1.size ≤ page =
                      omega (arith, clear.0, clear.1, ltb→lt x.0 y.0 t) in
                    let out : ltb page (x.0 + x.1.size) ≡ false =
                      ltb-ge page (x.0 + x.1.size) past in
                    let in_ : leb x.0 page ≡ true = leb_of_le x.0 page le in
                    ap (λ b. leb x.0 page && b) out ∙ ap (λ b. b && false) in_) in
                rw t (sym (lookup-reached xs page (some y) e) ∙ same ∙ sym (passed x xs page off))
            | inr f ↦
                let no_later : y.0 ≤ x.0 = ground arith in
                let before : y.0 + y.1.size ≤ page = omega (arith, clear.0, no_later, h.0.0, le) in
                rw f (
                  decides x xs page le h.0.1
                    (sym same ∙ lookup-reached xs page (some y) e ∙ short y page before small.0))
          ]
