-- ===== src/Gateway/Chunks.antt =====
-- `client_loop` of src/networking/gateway.cpp, which puts lines together from chunks, beside
-- `process_buffer`, which has them whole.
use mathlib.Core.List.{append_assoc, append-nil}
use trader_two.Prelude.{
  ℕ, zero, suc, ◌≤◌, ◌<◌, ◌==◌, ℤ, ◌≡◌, refl, sym, ap, ◌∙◌, true, false, List, [], ◌∷◌, ◌++◌,
  Option, none, some, some_inj, none_ne_some, length, arith, Bool-cases, Option-cases, inl, inr,
}
use trader_two.Registry.{MatchingEngine}
use trader_two.Engine.Matching.{Machine}
use trader_two.Text.{Bytes}
use trader_two.Protocol.{newline}
use trader_two.Gateway.{
  Session, new_session, and_then, split_line, serve_line, serve_buffer, serve_chunk, serve_chunks,
  close_session, process_buffer, client_loop,
}

-- The chunks joined.
abbrev pub concat : List Bytes → Bytes
concat [] = []
concat (c ∷ cs) = c ++ concat cs

and_then_assoc {ℓ κ μ} :
    {A : Type ℓ} {B : Type κ} {C : Type μ} (m : Option A) (f : A → Option B) (g : B → Option C)
    → and_then (and_then m f) g ≡ and_then m (λ a. and_then (f a) g)
and_then_assoc none f g = refl
and_then_assoc (some a) f g = refl

and_then_cong {ℓ κ} :
    {A : Type ℓ} {B : Type κ} (m : Option A) {f g : A → Option B}
    → ((a : A) → f a ≡ g a)
    → and_then m f ≡ and_then m g
and_then_cong none h = refl
and_then_cong (some a) h = h a

-- A byte that is no newline, in front of what is split.
split_past :
    (c : ℕ) (s : Bytes) {r : Option (Bytes × Bytes)}
    → (c == newline) ≡ false
    → split_line (c ∷ s) ≡ r
    → and_then (split_line s) (λ p. some (c ∷ p.0, p.1)) ≡ r
unfolding split_line
split_past c s miss e = rw miss at e

split_none :
    (c : ℕ) (s : Bytes) → (c == newline) ≡ false → split_line (c ∷ s) ≡ none → split_line s ≡ none
split_none c s miss e = elim (Option-cases (split_line s)) [
  | inl h ↦ h
  | inr (p, h) ↦
      let wrong : some (c ∷ p.0, p.1) ≡ none = rw h at (split_past c s miss e) in
      absurd (none_ne_some (sym wrong))
]

split_some :
    (c : ℕ) (s l rest : Bytes)
    → (c == newline) ≡ false
    → split_line (c ∷ s) ≡ some (l, rest)
    → (l' : Bytes) × (split_line s ≡ some (l', rest)) × (l ≡ c ∷ l')
split_some c s l rest miss e = elim (Option-cases (split_line s)) [
  | inl h ↦
      let wrong : none ≡ some (l, rest) = rw h at (split_past c s miss e) in
      absurd (none_ne_some wrong)
  | inr (p, h) ↦
      let same : some (c ∷ p.0, p.1) ≡ some (l, rest) = rw h at (split_past c s miss e) in
      let parts : (c ∷ p.0, p.1) ≡ (l, rest) = some_inj same in
      (
        p.0,
        h ∙ ap (λ (t : Bytes). some (p.0, t)) (ap (λ (q : Bytes × Bytes). q.1) parts),
        sym (ap (λ (q : Bytes × Bytes). q.0) parts),
      )
]

module _ (machine : Machine) (clock : ℕ → ℤ) where
  -- Byte by byte, with the line that has begun.
  serve_bytes : Bytes → Bytes → Session → Option (Session × Bytes)
  serve_bytes [] line s = some (s, line)
  serve_bytes (c ∷ rest) line s = elim (c == newline) [
    | true ↦ and_then (serve_line machine clock line s) (serve_bytes rest [])
    | false ↦ serve_bytes rest (line ++ (c ∷ [])) s
  ]

  bytes_of_none :
      (chunk line : Bytes) (s : Session)
      → split_line chunk ≡ none
      → serve_bytes chunk line s ≡ some (s, line ++ chunk)
  unfolding serve_bytes split_line
  bytes_of_none [] line s e = rw append-nil refl
  bytes_of_none (c ∷ rest) line s e = elim (Bool-cases (c == newline)) [
    | inl hit ↦ absurd (none_ne_some (sym (rw hit at e)))
    | inr miss ↦
        rw (miss, serve_bytes)
          (bytes_of_none rest (line ++ (c ∷ [])) s (split_none c rest miss e)
            ∙ rw append_assoc refl)
  ]

  bytes_of_line :
      (chunk line l rest : Bytes) (s : Session)
      → split_line chunk ≡ some (l, rest)
      → (serve_bytes chunk line s
          ≡ and_then (serve_line machine clock (line ++ l) s) (serve_bytes rest []))
        × (length rest < length chunk)
  unfolding serve_bytes split_line
  bytes_of_line [] line l rest s e = absurd (none_ne_some e)
  bytes_of_line (c ∷ chunk) line l rest s e = elim (Bool-cases (c == newline)) [
    | inl hit ↦
        let parts : ([], chunk) ≡ (l, rest) = some_inj (rw hit at e) in
        let no_line : [] ≡ l = ap (λ (q : Bytes × Bytes). q.0) parts in
        let left : chunk ≡ rest = ap (λ (q : Bytes × Bytes). q.1) parts in
        (
          rw (hit, serve_bytes) (rw (← no_line, ← left, append-nil) refl),
          omega (arith, ap length left),
        )
    | inr miss ↦
        let (l', e', joined) = split_some c chunk l rest miss e in
        let (served, shorter) = bytes_of_line chunk (line ++ (c ∷ [])) l' rest s e' in
        (rw (miss, serve_bytes) (served ∙ rw (joined, append_assoc) refl), omega arith)
  ]

  -- The inner loop of `client_loop` goes through a chunk.
  chunk-bytes :
      (fuel : ℕ) (line chunk : Bytes) (s : Session)
      → length chunk ≤ fuel
      → serve_chunk machine clock fuel line chunk s ≡ serve_bytes chunk line s
  unfolding serve_chunk serve_bytes
  chunk-bytes zero line [] s le = rw append-nil refl
  chunk-bytes zero line (c ∷ chunk) s le = absurd (omega arith)
  chunk-bytes (suc fuel) line chunk s le = elim (Option-cases (split_line chunk)) [
    | inl h ↦ rw (h, serve_chunk) (sym (bytes_of_none chunk line s h))
    | inr ((l, rest), h) ↦
        let (served, shorter) = bytes_of_line chunk line l rest s h in
        rw (h, serve_chunk)
          (and_then_cong (serve_line machine clock (line ++ l) s)
              (λ t. chunk-bytes fuel [] rest t (omega arith))
            ∙ sym served)
  ]

  -- So does that of `process_buffer`, which forgets the line that has no end.
  buffer-bytes :
      (fuel : ℕ) (input : Bytes) (s : Session)
      → length input ≤ fuel
      → serve_buffer machine clock fuel input s
        ≡ and_then (serve_bytes input [] s) (λ (p : Session × Bytes). some p.0)
  unfolding serve_buffer serve_bytes
  buffer-bytes zero [] s le = refl
  buffer-bytes zero (c ∷ input) s le = absurd (omega arith)
  buffer-bytes (suc fuel) input s le = elim (Option-cases (split_line input)) [
    | inl h ↦ rw (h, serve_buffer, bytes_of_none input [] s h) refl
    | inr ((l, rest), h) ↦
        let (served, shorter) = bytes_of_line input [] l rest s h in
        rw (h, serve_buffer)
          (and_then_cong (serve_line machine clock l s)
              (λ t. buffer-bytes fuel rest t (omega arith))
            ∙ sym (
                and_then_assoc (serve_line machine clock l s) (serve_bytes rest [])
                  (λ (p : Session × Bytes). some p.0))
            ∙ ap (λ (m : Option (Session × Bytes)). and_then m λ p. some p.0) (sym served))
  ]

  bytes-append :
      (a b line : Bytes) (s : Session)
      → serve_bytes (a ++ b) line s
        ≡ and_then (serve_bytes a line s) (λ (p : Session × Bytes). serve_bytes b p.1 p.0)
  unfolding serve_bytes
  bytes-append [] b line s = refl
  bytes-append (c ∷ a) b line s = elim (Bool-cases (c == newline)) [
    | inl hit ↦
        rw (hit, serve_bytes)
          (and_then_cong (serve_line machine clock line s) (λ t. bytes-append a b [] t)
            ∙ sym (
                and_then_assoc (serve_line machine clock line s) (serve_bytes a [])
                  (λ (p : Session × Bytes). serve_bytes b p.1 p.0)))
    | inr miss ↦ rw (miss, serve_bytes) (bytes-append a b (line ++ (c ∷ [])) s)
  ]

  chunks-bytes :
      (chunks : List Bytes) (line : Bytes) (s : Session)
      → serve_chunks machine clock chunks line s
        ≡ and_then (serve_bytes (concat chunks) line s) (λ (p : Session × Bytes). some p.0)
  unfolding serve_chunks serve_bytes
  chunks-bytes [] line s = refl
  chunks-bytes (chunk ∷ chunks) line s =
      ap
        (λ (m : Option (Session × Bytes)).
          and_then m λ p. serve_chunks machine clock chunks p.1 p.0)
        (chunk-bytes (length chunk) line chunk s (omega arith))
      ∙ and_then_cong (serve_bytes chunk line s) (λ p. chunks-bytes chunks p.1 p.0)
      ∙ sym (
          and_then_assoc (serve_bytes chunk line s)
            (λ (p : Session × Bytes). serve_bytes (concat chunks) p.1 p.0)
            (λ (p : Session × Bytes). some p.0))
      ∙ ap (λ (m : Option (Session × Bytes)). and_then m λ p. some p.0)
          (sym (bytes-append chunk (concat chunks) line s))

  -- A client whose text comes in chunks, cut anywhere, leaves the engine, the calls of the
  -- publisher and the bytes written to it that a buffer with the whole text leaves.
  pub client_loop-eq-process_buffer :
      (chunks : List Bytes) (e : MatchingEngine)
      → client_loop machine clock chunks e ≡ process_buffer machine clock (concat chunks) e
  unfolding client_loop process_buffer
  client_loop-eq-process_buffer chunks e =
      ap (λ (m : Option Session). and_then m λ s. some (close_session s))
        (chunks-bytes chunks [] (new_session e)
          ∙ sym
              (buffer-bytes (length (concat chunks)) (concat chunks) (new_session e) (omega arith)))
