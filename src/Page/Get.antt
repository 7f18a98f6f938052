-- ===== src/Page/Get.antt =====
-- `page_get`: a record is copied out whole, or nothing is.
use cs_lab.Base.{
  ℕ, ◌+◌, ◌≤◌, ◌<◌, ◌≡◌, refl, ap, ◌∙◌, arith, sym, ltb, leb, ◌==◌, if◌then◌else◌, Option, none,
  some, List, length, Bool-cases, inl, inr, leb→le, leb→gt, ltb→lt, ltb→ge, le→leb, gt→leb, ==→eq,
  ==→ne,
}
use mathlib.Core.Option.{some-injective}
use cs_lab.Memory.{Mem, bytes, memcpy}
use cs_lab.Memory.Frame.{memcpy_in, memcpy_out, bytes_cong, length-bytes}
use cs_lab.Page.{slot_count, record_offset, record_length, get_record}
use cs_lab.Page.Layout.{lookup, lookup_outside, lookup_deleted, lookup_live}

-- The length that `page_get` returns for a stored record and a buffer of `size` bytes.
abbrev pub fetched : Option (List ℕ) → ℕ → Option ℕ
fetched none size = none
fetched (some r) size = if leb (length r) size then some (length r) else none

-- The buffer after `page_get`: the record at its front if it was found and fits.
pub record Fetched (p : Mem) (i : ℕ) (buffer : Mem) (size : ℕ) (out : Option ℕ × Mem) : Type 0 where
  pub result : out.0 ≡ fetched (lookup p i) size
  pub content : (r : List ℕ) → lookup p i ≡ some r → length r ≤ size → bytes out.1 0 (length r) ≡ r
  pub beyond : (b : ℕ) → size ≤ b → out.1 b ≡ buffer b
  pub failed : out.0 ≡ none → (b : ℕ) → out.1 b ≡ buffer b

module _ (p : Mem) (i : ℕ) (buffer : Mem) (size : ℕ) where
  missing : lookup p i ≡ none → Fetched p i buffer size (none, buffer)
  missing h = record {
    result = rw h;
    content = λ r e. cc;
    beyond = λ b l. refl;
    failed = λ e b. refl;
  }

  module _ (live : lookup p i ≡ some (bytes p (record_offset p i) (record_length p i))) where
    stored_length : (r : List ℕ) → lookup p i ≡ some r → length r ≡ record_length p i
    stored_length r e =
        ap length (some-injective _ _ (sym e ∙ live))
        ∙ length-bytes p (record_offset p i) (record_length p i)

    too_small : size < record_length p i → Fetched p i buffer size (none, buffer)
    too_small less = record {
      result = rw (
        live,
        length-bytes p (record_offset p i) (record_length p i),
        gt→leb (record_length p i) size less,
      );
      content = λ r e h. absurd (omega (arith, stored_length r e));
      beyond = λ b l. refl;
      failed = λ e b. refl;
    }

    copied_out :
        record_length p i ≤ size
        → Fetched p i buffer size (
          some (record_length p i),
          memcpy buffer 0 (λ k. p (record_offset p i + k)) (record_length p i),
        )
    copied_out fits =
        let source : Mem = λ k. p (record_offset p i + k) in
        let m = memcpy buffer 0 source (record_length p i) in
        record {
          result = rw (
            live,
            length-bytes p (record_offset p i) (record_length p i),
            le→leb (record_length p i) size fits,
          );
          content = λ r e h.
              ap (bytes m 0) (stored_length r e)
              ∙ bytes_cong m p 0 (record_offset p i) (record_length p i)
                  (λ k lt. memcpy_in buffer 0 source (record_length p i) k lt)
              ∙ some-injective _ _ (sym live ∙ e);
          beyond = λ b l. memcpy_out buffer 0 source (record_length p i) b (omega arith);
          failed = λ e. cc;
        }

  -- `page_get` returns the length of a stored record that fits the buffer and copies the record to
  -- it; else it returns -1 and leaves the buffer alone. No byte behind the buffer size changes.
  pub get_record-Fetched : Fetched p i buffer size (get_record p i buffer size)
  unfolding get_record
  get_record-Fetched = elim (Bool-cases (leb (slot_count p) i)) [
    | inl out ↦ rw out (missing (lookup_outside p i (leb→le (slot_count p) i out)))
    | inr inside ↦ elim (Bool-cases (record_length p i == 0)) [
      | inl dead ↦
          rw (inside, dead) (missing (lookup_deleted p i (==→eq (record_length p i) 0 dead)))
      | inr alive ↦
          let live =
            lookup_live p i (record_length p i) (leb→gt (slot_count p) i inside) refl
              (==→ne (record_length p i) 0 alive) in
          elim (Bool-cases (ltb size (record_length p i))) [
            | inl small ↦
                rw (inside, alive, small) (too_small live (ltb→lt size (record_length p i) small))
            | inr fits ↦
                rw (inside, alive, fits) (copied_out live (ltb→ge size (record_length p i) fits))
          ]
    ]
  ]
