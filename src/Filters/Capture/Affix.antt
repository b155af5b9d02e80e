-- ===== src/Filters/Capture/Affix.antt =====
-- Captures of a prefix or a suffix (src/filters/capture/affix.rs) and concatenations.
use mathlib.Core.List.{append-nil}
use quilkin.Common.{
  suc, ◌-◌, ◌≡◌, refl, ap, ◌∙◌, Bool, true, some, [], ◌∷◌, ◌++◌, length, take, drop, if◌then◌else◌,
  arith, length-append,
}
use quilkin.Common.Maps
use quilkin.Common.Maps.{get-insert, get-insert_self}
use quilkin.Net.Address.{Bytes, bytes_ord}
use quilkin.Filters.{Value, ReadContext, passed}
use quilkin.Filters.Capture.{
  pos, suffix, new_capture, capture_read, remove_captured, present_suffix, Strategy, append,
  concatenate_read,
}

pub take-append : (xs ys : Bytes) → take (length xs) (xs ++ ys) ≡ xs
take-append [] ys = refl
take-append (x ∷ xs) ys = rw (take-append xs ys)

pub drop-append : (xs ys : Bytes) → drop (length xs) (xs ++ ys) ≡ ys
drop-append [] ys = refl
drop-append (x ∷ xs) ys = drop-append xs ys

suffix-append :
    (remove : Bool) (body token : Bytes)
    → suffix remove (length token) (body ++ token)
      ≡ some (Value.bytes token, if remove then pos (length token) else pos 0)
unfolding suffix
suffix-append remove body token =
    let rest : length (body ++ token) - length token ≡ length body =
      omega (arith, length-append body token) in
    rw rest (ground (arith, length-append body token, drop-append body token))

removed_tail :
    (body token : Bytes) → remove_captured (pos (length token)) (body ++ token) ≡ some body
unfolding remove_captured
removed_tail body [] = ap some (append-nil body)
removed_tail body (t ∷ token) =
    let rest : length (body ++ t ∷ token) - suc (length token) ≡ length body =
      omega (arith, length-append body (t ∷ token)) in
    ap (λ n. some (take n (body ++ t ∷ token))) rest ∙ ap some (take-append body (t ∷ token))

-- A capture of a suffix that removes it, of the length of the token at the end of the packet, passes:
-- it takes the token off, files it under its key, and leaves the packet's other parts alone.
pub capture_read-suffix :
    {U R : Type 0} (key body token : Bytes) (ctx : ReadContext U R)
    → ctx.contents ≡ body ++ token
    → capture_read (new_capture (suffix true (length token)) key) ctx
      ≡ some (
        passed,
        record ctx {
          metadata =
              Maps.insert key
                (Value.bytes token)
                (Maps.insert (key ++ present_suffix) (Value.bool true) ctx.metadata);
          contents = body;
        },
      )
unfolding capture_read new_capture
capture_read-suffix key body token ctx e =
    ground (arith, e, suffix-append true body token, removed_tail body token)

-- Bytes appended to a packet and then captured from its end leave the packet as it was, with the
-- bytes filed under the key.
pub capture-concatenate :
    {U R : Type 0} (on_write : Strategy) (key token : Bytes) (ctx : ReadContext U R)
    → capture_read
        (new_capture (suffix true (length token)) key)
        (concatenate_read (record { on_read = append; on_write = on_write; bytes = token }) ctx).1
      ≡ some (
        passed,
        record ctx {
          metadata =
              Maps.insert key
                (Value.bytes token)
                (Maps.insert (key ++ present_suffix) (Value.bool true) ctx.metadata);
        },
      )
unfolding concatenate_read
capture-concatenate on_write key token ctx =
    capture_read-suffix key ctx.contents token (record ctx { contents = ctx.contents ++ token })
      refl
