-- ===== src/Wire/Unpacker/Chunks.antt =====
-- The messages of a stream do not depend on how it is cut into chunks.
use eshetcpp.Base.{
  ℕ, zero, suc, ◌+◌, ◌*◌, ◌%◌, ◌^◌, ◌<◌, ◌≡◌, refl, sym, ap, ◌∙◌, List, [], ◌∷◌, ◌++◌, Option, none,
  some, length, length-drop, arith, append_assoc, append-nil, Except, ok, throw,
}
use mathlib.Core.Path.{fun_ext}
use eshetcpp.Base.Bytes.{Bytes}
use eshetcpp.Wire.Unpacker.{
  Unpacker, push, read, Drained, stop, put_first, after_read, read_all, drain, receive, go_on,
}
use eshetcpp.Wire.Unpacker.Stream.{buffered, split, read-split, Extends, split-append}

-- What a `read` can do.
abbrev pub Cases : Unpacker → Except (Option Bytes × Unpacker) → Type 0
Cases u (throw e) = Unit {0}
Cases u (ok (none, u')) = u' ≡ u
Cases u (ok (some m, u')) = length u'.buffer < length u.buffer

split-Cases : (bs : Bytes) → Cases (buffered bs) (split bs)
split-Cases [] = refl
split-Cases (a ∷ []) = refl
split-Cases (a ∷ b ∷ []) = refl
split-Cases (m ∷ hi ∷ lo ∷ rest) = ground (arith, length-drop ((hi * 2 ^ 8 + lo) % 2 ^ 16) rest)

pub read-Cases : (u : Unpacker) → Cases u (read u)
read-Cases u = rw (read-split u.buffer) (split-Cases u.buffer)

after_read-ap :
    (u : Unpacker) (r : Except (Option Bytes × Unpacker)) (k h : Unpacker → Drained)
    → Cases u r
    → ((u' : Unpacker) → length u'.buffer < length u.buffer → k u' ≡ h u')
    → after_read r k ≡ after_read r h
after_read-ap u (throw e) k h c same = refl
after_read-ap u (ok (none, u')) k h c same = refl
after_read-ap u (ok (some m, u')) k h c same = ap (put_first m) (same u' c)

-- The loop ends by its test: more fuel changes nothing.
read_all_enough :
    (f g : ℕ) (u : Unpacker)
    → length u.buffer < f
    → length u.buffer < g
    → read_all f u ≡ read_all g u
unfolding read_all
read_all_enough zero g u hf hg = absurd (omega arith)
read_all_enough (suc f) zero u hf hg = absurd (omega arith)
read_all_enough (suc f) (suc g) u hf hg =
    after_read-ap u (read u) (read_all f) (read_all g) (read-Cases u)
      λ u' lt. read_all_enough f g u' (omega arith) (omega arith)

pub drain_step : (u : Unpacker) → drain u ≡ after_read (read u) drain
unfolding drain
drain_step u =
    after_read-ap u (read u) (read_all (length u.buffer)) drain (read-Cases u)
      λ u' lt. read_all_enough (length u.buffer) (suc (length u'.buffer)) u' lt (omega arith)

read-push : (u : Unpacker) (more : Bytes) → Extends (read u) more (read (push more u))
unfolding push
read-push u more =
    rw (read-split u.buffer, read-split (u.buffer ++ more)) (split-append u.buffer more)

go_on-put_first :
    (m : Bytes) (ms : List Bytes) (after : Except Unpacker) (k : Unpacker → Drained)
    → let d : Drained = record { messages = ms; after = after } in
      go_on (put_first m d) k ≡ put_first m (go_on d k)
go_on-put_first m ms (ok u) k = refl
go_on-put_first m ms (throw e) k = refl

-- Bytes that come in behind a buffer are read where its loop leaves off.
abbrev Continues : Unpacker → Bytes → Type 0
Continues u more = drain (push more u) ≡ go_on (drain u) (λ v. drain (push more v))

Continues-step :
    (u : Unpacker) (more : Bytes) (r : Except (Option Bytes × Unpacker))
    → Cases u r
    → Extends r more (read (push more u))
    → drain u ≡ after_read r drain
    → ((u' : Unpacker) → length u'.buffer < length u.buffer → Continues u' more)
    → Continues u more
Continues-step u more (throw e) c x d ih = rw (drain_step (push more u), x, d)
Continues-step u more (ok (none, u')) c x d ih = rw (d, c)
Continues-step u more (ok (some m, u')) c x d ih =
    rw (drain_step (push more u), x, d, ih u' c)
      (sym (go_on-put_first m (drain u').messages (drain u').after (λ v. drain (push more v))))

drain-push_below : (n : ℕ) (u : Unpacker) (more : Bytes) → length u.buffer < n → Continues u more
drain-push_below zero u more h = absurd (omega arith)
drain-push_below (suc n) u more h =
    Continues-step u more (read u) (read-Cases u) (read-push u more) (drain_step u)
      λ u' lt. drain-push_below n u' more (omega arith)

drain-push : (u : Unpacker) (more : Bytes) → Continues u more
drain-push u more = drain-push_below (suc (length u.buffer)) u more (omega arith)

abbrev pub concat : List Bytes → Bytes
concat [] = []
concat (c ∷ cs) = c ++ concat cs

push-push : (a b : Bytes) (u : Unpacker) → push b (push a u) ≡ push (a ++ b) u
unfolding push
push-push a b u = ap buffered (append_assoc u.buffer a b)

go_on-stop :
    (ms : List Bytes) (after : Except Unpacker)
    → let d : Drained = record { messages = ms; after = after } in go_on d (λ v. stop (ok v)) ≡ d
go_on-stop ms (ok u) = ap (λ l. record { messages = l; after = ok u }) (append-nil ms)
go_on-stop ms (throw e) = refl

-- Chunks that arrive one after another, each followed by the loop that reads what is complete, give
-- the messages of the whole stream, the same exception if any, and the same unread bytes.
pub receive-concat :
    (u : Unpacker) (chunk : Bytes) (chunks : List Bytes)
    → receive (chunk ∷ chunks) u ≡ drain (push (chunk ++ concat chunks) u)
unfolding receive
receive-concat u chunk [] =
    let d = drain (push chunk u) in rw (append-nil chunk) (go_on-stop d.messages d.after)
receive-concat u chunk (next ∷ chunks) =
    ap (go_on (drain (push chunk u))) (fun_ext λ v. receive-concat v next chunks)
    ∙ sym (drain-push (push chunk u) (next ++ concat chunks))
    ∙ ap drain (push-push chunk (next ++ concat chunks) u)
