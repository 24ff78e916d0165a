-- ===== src/Codec/RoundTrip/CaSigs.antt =====
-- The loop of `parse_cert` in src/codec.rs over the CA keys and signatures.
use mathlib.Core.Path.{fun_ext, subst, subst₂}
use bolina_rs.Prelude.{
  ℕ, zero, suc, ◌+◌, ◌<◌, ◌≡◌, refl, sym, ap, ◌∙◌, List, [], ◌∷◌, ◌++◌, append-nil, append_assoc,
  length, false, ok, err, Result, arith, ltb, ◌&&◌,
}
use bolina_rs.Prelude.Bytes.{Bytes, bytes_le}
use bolina_rs.Codec.Limits.{len_ca_key, len_sig}
use bolina_rs.Codec.Cursor.{
  Cursor, Parser, ParseError, malformed, ◌>>=◌, ◌>>◌, next, refuse_if, take, position, since,
}
use bolina_rs.Codec.Cursor.Reads.{
  Sound, Sound-bind, Sound-refuse_if, Runs, Runs-bind, Runs-refuse_if, Cut, Cut-bind, Cut-refuse_if,
  Cut-nil, Cut-position, Sound-position, Sound-since_from, Runs-position, Runs-since_from,
}
use bolina_rs.Codec.Cursor.Fields.{Reads-take}
use bolina_rs.Codec.Parse.{ca_loop}

-- A key and its signature, each as bytes.
abbrev pub CaSig : Type 0
CaSig = Bytes × Bytes

abbrev pub ca_bytes : List CaSig → Bytes
ca_bytes [] = []
ca_bytes ((key, sig) ∷ es) = key ++ (sig ++ ca_bytes es)

-- Each key is strictly above the one before it, the first above `prev`.
abbrev pub AscendsFrom : Bytes → List CaSig → Type 0
AscendsFrom prev [] = Unit {0}
AscendsFrom prev ((key, sig) ∷ es) =
    (bytes_le key prev ≡ false)
    × (length key ≡ len_ca_key)
    × (length sig ≡ len_sig)
    × AscendsFrom key es

abbrev pub AreAscending : List CaSig → Type 0
AreAscending [] = Unit {0}
AreAscending ((key, sig) ∷ es) =
    (length key ≡ len_ca_key) × (length sig ≡ len_sig) × AscendsFrom key es

-- What the loop accepts from round `i` on: the order is tested from the second round.
abbrev Accepts : ℕ → Bytes → List CaSig → Type 0
Accepts i prev [] = Unit {0}
Accepts i prev ((key, sig) ∷ es) =
    (length key ≡ len_ca_key)
    × ((ltb 0 i && bytes_le key prev) ≡ false)
    × (length sig ≡ len_sig)
    × Accepts (i + 1) key es

Accepts→AscendsFrom :
    (i : ℕ) (prev : Bytes) (es : List CaSig) → 0 < i → Accepts i prev es → AscendsFrom prev es
Accepts→AscendsFrom i prev [] pos a = tt
Accepts→AscendsFrom i prev ((key, sig) ∷ es) pos (k, o, s, a) =
    (ground arith, k, s, Accepts→AscendsFrom (i + 1) key es (omega arith) a)

AscendsFrom→Accepts :
    (i : ℕ) (prev : Bytes) (es : List CaSig) → 0 < i → AscendsFrom prev es → Accepts i prev es
AscendsFrom→Accepts i prev [] pos a = tt
AscendsFrom→Accepts i prev ((key, sig) ∷ es) pos (o, k, s, a) =
    (k, ground arith, s, AscendsFrom→Accepts (i + 1) key es (omega arith) a)

Accepts→AreAscending : (es : List CaSig) → Accepts 0 [] es → AreAscending es
Accepts→AreAscending [] a = tt
Accepts→AreAscending ((key, sig) ∷ es) (k, o, s, a) =
    (k, s, Accepts→AscendsFrom 1 key es (omega arith) a)

AreAscending→Accepts : (es : List CaSig) → AreAscending es → Accepts 0 [] es
AreAscending→Accepts [] a = tt
AreAscending→Accepts ((key, sig) ∷ es) (k, s, a) =
    (k, refl, s, AscendsFrom→Accepts 1 key es (omega arith) a)

next_assoc :
    {A B C : Type 0} (f : A → Parser B) (g : B → Parser C) (z : Result (A × Cursor) ParseError)
    → next g (next f z) ≡ next (λ a c. next g (f a c)) z
next_assoc f g (ok (a, c)) = refl
next_assoc f g (err e) = refl

>>=-assoc :
    {A B C : Type 0} (m : Parser A) (f : A → Parser B) (g : B → Parser C)
    → (m >>= f >>= g) ≡ (m >>= λ a. f a >>= g)
>>=-assoc m f g = fun_ext λ c. next_assoc f g (m c)

module _ {B : Type 0} (k : Parser B) where
  abbrev round : ℕ → ℕ → Bytes → Parser B
  round n i prev = do
    key ← take len_ca_key
    refuse_if (ltb 0 i && bytes_le key prev) malformed
    sig ← take len_sig
    (ca_loop n (i + 1) key >> k)

  ca_loop_step : (n i : ℕ) (prev : Bytes) → (ca_loop (suc n) i prev >> k) ≡ round n i prev
  unfolding ca_loop
  ca_loop_step n i prev =
      >>=-assoc (take len_ca_key) _ _
      ∙ ap (λ t. take len_ca_key >>= t)
          (fun_ext λ key.
            >>=-assoc (refuse_if (ltb 0 i && bytes_le key prev) malformed) _ _
            ∙ ap (λ t. refuse_if (ltb 0 i && bytes_le key prev) malformed >>= t)
                (fun_ext λ u. >>=-assoc (take len_sig) _ _))

  Sound-ca_loop :
      (n i : ℕ) (prev p : Bytes) (Q : B → Bytes → Type 0)
      → ((es : List CaSig) → length es ≡ n → Accepts i prev es → Sound (p ++ ca_bytes es) k Q)
      → Sound p (ca_loop n i prev >> k) Q
  unfolding ca_loop
  Sound-ca_loop zero i prev p Q h = rw append-nil at (h [] refl tt)
  Sound-ca_loop (suc n) i prev p Q h =
      subst (λ m. Sound p m Q) (sym (ca_loop_step n i prev))
        (Sound-bind (Reads-take len_ca_key) _ (λ key. _) Q
          λ key key_ok. Sound-refuse_if _ _ malformed _ Q λ ordered.
            Sound-bind (Reads-take len_sig) _ _ Q λ sig sig_ok.
              Sound-ca_loop n (i + 1) key _ Q λ es count accepts.
                subst (λ t. Sound t k Q) (simp append_assoc)
                  (h ((key, sig) ∷ es) (ap suc count) (key_ok, ordered, sig_ok, accepts)))

  Runs-ca_loop :
      (n i : ℕ) (prev p w : Bytes) (es : List CaSig) {b : B}
      → length es ≡ n
      → Accepts i prev es
      → Runs (p ++ ca_bytes es) k w b
      → Runs p (ca_loop n i prev >> k) (ca_bytes es ++ w) b
  unfolding ca_loop
  Runs-ca_loop zero i prev p w [] count a h = rw append-nil at h
  Runs-ca_loop zero i prev p w (e ∷ es) count a h = absurd (omega arith)
  Runs-ca_loop (suc n) i prev p w [] count a h = absurd (omega arith)
  Runs-ca_loop (suc n) i prev p w ((key, sig) ∷ es) {b} count (k_ok, ordered, s_ok, a) h =
      subst₂ (λ m t. Runs p m t b) (sym (ca_loop_step n i prev))
        (sym (
          append_assoc key (sig ++ ca_bytes es) w
          ∙ ap (λ t. key ++ t) (append_assoc sig (ca_bytes es) w)))
        (Runs-bind (Reads-take len_ca_key) p (sig ++ (ca_bytes es ++ w)) key _ k_ok (
          Runs-refuse_if _ _ malformed _ ordered (
            Runs-bind (Reads-take len_sig) (p ++ key) (ca_bytes es ++ w) sig _ s_ok (
              Runs-ca_loop n (i + 1) key (p ++ key ++ sig) w es (omega arith) a
                (subst (λ t. Runs t k w b) (simp append_assoc) h)))))

  Cut-ca_loop :
      (n i : ℕ) (prev p w : Bytes) (es : List CaSig)
      → length es ≡ n
      → Accepts i prev es
      → Cut (p ++ ca_bytes es) k w
      → Cut p (ca_loop n i prev >> k) (ca_bytes es ++ w)
  unfolding ca_loop
  Cut-ca_loop zero i prev p w [] count a h = rw append-nil at h
  Cut-ca_loop zero i prev p w (e ∷ es) count a h = absurd (omega arith)
  Cut-ca_loop (suc n) i prev p w [] count a h = absurd (omega arith)
  Cut-ca_loop (suc n) i prev p w ((key, sig) ∷ es) count (k_ok, ordered, s_ok, a) h =
      subst₂ (λ m t. Cut p m t) (sym (ca_loop_step n i prev))
        (sym (
          append_assoc key (sig ++ ca_bytes es) w
          ∙ ap (λ t. key ++ t) (append_assoc sig (ca_bytes es) w)))
        (Cut-bind (Reads-take len_ca_key) p (sig ++ (ca_bytes es ++ w)) key _ k_ok (
          Cut-refuse_if _ _ malformed _ ordered (
            Cut-bind (Reads-take len_sig) (p ++ key) (ca_bytes es ++ w) sig _ s_ok (
              Cut-ca_loop n (i + 1) key (p ++ key ++ sig) w es (omega arith) a
                (subst (λ t. Cut t k w) (simp append_assoc) h)))))

-- The loop with what surrounds it: `ca_start`, and the bytes since then.
module _ {B : Type 0} (n : ℕ) (p : Bytes) (f : Bytes → Parser B) where
  abbrev ca_sigs : Parser B
  ca_sigs = do start ← position; ca_loop n 0 []; sigs ← since start; f sigs

  pub Sound-ca_sigs :
      (Q : B → Bytes → Type 0)
      → ((es : List CaSig)
          → length es ≡ n
          → AreAscending es
          → Sound (p ++ ca_bytes es) (f (ca_bytes es)) Q)
      → Sound p ca_sigs Q
  Sound-ca_sigs Q k = Sound-position p _ Q (
      Sound-ca_loop (since (length p) >>= f) n 0 [] p Q
        λ es count a. Sound-since_from p (ca_bytes es) f Q (k es count (Accepts→AreAscending es a)))

  pub Runs-ca_sigs :
      (w : Bytes) (es : List CaSig) {b : B}
      → length es ≡ n
      → AreAscending es
      → Runs (p ++ ca_bytes es) (f (ca_bytes es)) w b
      → Runs p ca_sigs (ca_bytes es ++ w) b
  Runs-ca_sigs w es count a h = Runs-position p _ _ (
      Runs-ca_loop (since (length p) >>= f) n 0 [] p w es count (AreAscending→Accepts es a)
        (Runs-since_from p (ca_bytes es) w f h))

  pub Cut-ca_sigs :
      (es : List CaSig) → length es ≡ n → AreAscending es → Cut p ca_sigs (ca_bytes es ++ [])
  Cut-ca_sigs es count a = Cut-position p _ _ (
      Cut-ca_loop (since (length p) >>= f) n 0 [] p [] es count (AreAscending→Accepts es a)
        (Cut-nil _ _))
