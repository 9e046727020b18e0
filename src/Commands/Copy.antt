-- ===== src/Commands/Copy.antt =====
-- The worker of dump copies a file.
use mathlib.Core.Path.{subst}
use native.Mathlib.Decide.{dec_le}
use native.Mathlib.Nat.{suc-mul}
use fuse_nx.Prelude.{
  ℕ, zero, suc, ◌+◌, ◌-◌, ◌*◌, ◌≤◌, ◌<◌, ◌^◌, ◌≡◌, refl, sym, ap, ◌∙◌, arith, min, false, ltb,
  lt→ltb, le→leb, ap₂, List, [], ◌∷◌, ◌++◌, length, take, drop,
}
use fuse_nx.Prelude.Words.{u64}
use fuse_nx.Prelude.Slices.{
  slice, overwrite, length-slice, drop_all, drop-drop, take-nil, drop-nil, length-overwrite,
}
use fuse_nx.Keys.Lines.{take_prefix}
use fuse_nx.Io.{FileBase, size}
use fuse_nx.Romfs.Types.{ok, ◌>>=◌}
use fuse_nx.Vfs.Interface.{Interface}
use fuse_nx.Commands.Dump.{copy}

le→ltb : (a b : ℕ) → b ≤ a → ltb a b ≡ false
le→ltb a b h = ground arith

-- A piece of a list, and what is behind it.
take_then_drop : (n : ℕ) (xs : List ℕ) → take n xs ++ drop (length (take n xs)) xs ≡ xs
take_then_drop n [] = ap₂ ◌++◌ (take-nil n) (drop-nil (length (take n [])))
take_then_drop zero (x ∷ xs) = refl
take_then_drop (suc n) (x ∷ xs) = ap (◌∷◌ x) (take_then_drop n xs)

module _ {C W : Type 0} (ops : Interface C W) (Shows : FileBase → W → List ℕ → Type 0) where
  -- A file shows some bytes: its size is their number, and a read from within it stores what there is from
  -- there on, tells how much it is, and leaves a file that shows the same.
  pub record IsReader : Type 0 where
    pub sized : {f : FileBase} {w : W} {xs : List ℕ} → Shows f w xs → size f ≡ length xs
    pub bounded : {f : FileBase} {w : W} {xs : List ℕ} → Shows f w xs → length xs < 2 ^ 63
    pub reads :
        {f : FileBase} {w : W} {xs : List ℕ} (p : ℕ) (buf : List ℕ)
        → Shows f w xs
        → p ≤ length xs
        → (f' : FileBase) × (w' : W) × (ops.read_at p f buf w
            ≡ ok
                (length (slice p (length buf) xs), overwrite buf (slice p (length buf) xs), f', w'))
          × Shows f' w' xs

  take-overwrite : (buf got : List ℕ) → take (length got) (overwrite buf got) ≡ got
  take-overwrite buf got = take_prefix got _

  copy_past :
      (k p : ℕ) (f : FileBase) (buf : List ℕ) (w : W)
      → size f ≤ p
      → copy ops k p f buf w ≡ ok ([], f, w)
  unfolding copy
  copy_past zero p f buf w h = rw (le→ltb p (size f) h, copy) refl
  copy_past (suc k) p f buf w h = rw (le→ltb p (size f) h, copy) refl

  copy_end :
      (k p : ℕ) (f : FileBase) (buf : List ℕ) (w : W) (xs : List ℕ)
      → IsReader
      → Shows f w xs
      → length xs ≤ p
      → copy ops k p f buf w ≡ ok (drop p xs, f, w)
  copy_end k p f buf w xs reader shows past =
      copy_past k p f buf w (omega (arith, reader.sized shows))
      ∙ ap (λ ys. ok (ys, f, w)) (sym (drop_all p xs past))

  copy_round :
      (k p : ℕ) (f : FileBase) (buf : List ℕ) (w : W) (count : ℕ) (buf' : List ℕ) (f' : FileBase)
      (w' : W)
      → p < size f
      → ops.read_at p f buf w ≡ ok (count, buf', f', w')
      → count ≤ length buf'
      → (rest : List ℕ) (f'' : FileBase) (w'' : W)
      → copy ops k (u64 (p + count)) f' buf' w' ≡ ok (rest, f'', w'')
      → copy ops (suc k) p f buf w ≡ ok (take count buf' ++ rest, f'', w'')
  unfolding copy
  copy_round k p f buf w count buf' f' w' inside e fits rest f'' w'' ih =
      rw (lt→ltb p (size f) inside, copy)
        (rw (e, ◌>>=◌) (rw (le→leb count (length buf') fits) (rw (ih, ◌>>=◌) refl)))

  pub copy-Shows :
      (k p : ℕ) (f : FileBase) (buf : List ℕ) (w : W) (xs : List ℕ)
      → IsReader
      → Shows f w xs
      → p ≤ length xs
      → 0 < length buf
      → length buf < 2 ^ 63
      → length xs ≤ p + k * length buf
      → (f' : FileBase) × (w' : W) × (copy ops k p f buf w ≡ ok (drop p xs, f', w'))
        × Shows f' w' xs
  copy-Shows zero p f buf w xs reader shows h some_buf small enough =
      (f, w, copy_end zero p f buf w xs reader shows (omega (arith, enough)), shows)
  copy-Shows (suc k) p f buf w xs reader shows h some_buf small enough =
      elim (dec_le (length xs) p) [
        | yes past ↦ (f, w, copy_end (suc k) p f buf w xs reader shows past, shows)
        | no inside ↦
            let (f', w', e, shows') = reader.reads p buf shows h in
            let got = slice p (length buf) xs in
            let n : length got ≡ min (length buf) (length xs - p) =
              length-slice p (length buf) xs in
            let wide : length (overwrite buf got) ≡ length buf =
              length-overwrite buf got (omega (arith, n)) in
            let here : u64 (p + length got) ≡ p + length got =
              omega (arith, n, reader.bounded shows, small) in
            let (f'', w'', ih, shows'') =
              copy-Shows k (p + length got) f' (overwrite buf got) w' xs reader shows'
                (omega (arith, n, h)) (omega (arith, wide, some_buf)) (omega (arith, wide, small))
                (subst (λ m. length xs ≤ (p + length got) + k * m) (sym wide)
                  (omega (arith, n, enough, suc-mul k (length buf), h))) in
            (
              f'',
              w'',
              copy_round k p f buf w (length got) (overwrite buf got) f' w'
                    (omega (arith, inside, reader.sized shows)) e (omega (arith, n, wide))
                    (drop (p + length got) xs) f'' w''
                    (ap (λ q. copy ops k q f' (overwrite buf got) w') here ∙ ih)
                  ∙ ap (λ ys. ok (ys, f'', w''))
                      (ap₂ ◌++◌ (take-overwrite buf got) (sym (drop-drop (length got) p xs))
                        ∙ take_then_drop (length buf) (drop p xs)),
              shows'',
            )
      ]
