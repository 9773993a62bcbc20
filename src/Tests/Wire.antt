-- ===== src/Tests/Wire.antt =====
-- Frames, the parser and the text of objects at small inputs.
use eshetcpp.Base.{ℕ, zero, suc, ◌≡◌, refl, List, [], ◌∷◌, ◌++◌, some, ok, arith}
use eshetcpp.Base.Bytes.{Bytes}
use eshetcpp.Base.Text.{codes}
use eshetcpp.Base.SortedMap.{nat_key, bytes_key}
use eshetcpp.Wire.Parser.{read8, read16, read32, read_string, read_msgpack, check_empty}
use eshetcpp.Wire.Parser.Readers.{get8, get16, get32, get_string, get_msgpack, get_end}
use eshetcpp.Wire.Parser.Refinement.{Refines, methods-Refines}
use eshetcpp.Wire.Unpacker.{Unpacker, Drained, empty, push, drain}
use eshetcpp.Wire.Unpacker
use eshetcpp.Wire.Unpacker.Chunks.{concat, receive-concat}
use eshetcpp.Wire.Unpacker.Framing.{receive-framed_all}
use eshetcpp.Stringize.{append_msgpack, escape_all}
use eshetcpp.Stringize.Render.{render, IsSmall, count, append_msgpack-render}
use eshetcpp.Stringize.Escape.{unescape, unescape-escape_all}
use eshetcpp.Tests.Setting.{pair, one_byte, takes_all}

abbrev two : List Bytes
two = (5 ∷ 6 ∷ []) ∷ (7 ∷ []) ∷ []

receive-framed_all_example :
    Unpacker.receive ((0x47 ∷ 0 ∷ []) ∷ (2 ∷ 5 ∷ 6 ∷ 0x47 ∷ []) ∷ (0 ∷ 1 ∷ 7 ∷ []) ∷ []) empty
    ≡ record { messages = two; after = ok empty }
receive-framed_all_example =
    receive-framed_all two (0x47 ∷ 0 ∷ []) ((2 ∷ 5 ∷ 6 ∷ 0x47 ∷ []) ∷ (0 ∷ 1 ∷ 7 ∷ []) ∷ [])
      (omega arith, (omega arith, tt)) refl

receive-concat_example :
    Unpacker.receive ((0x47 ∷ 0 ∷ []) ∷ (1 ∷ 9 ∷ []) ∷ []) empty
    ≡ drain (push ((0x47 ∷ 0 ∷ []) ++ concat ((1 ∷ 9 ∷ []) ∷ [])) empty)
receive-concat_example = receive-concat empty (0x47 ∷ 0 ∷ []) ((1 ∷ 9 ∷ []) ∷ [])

methods-Refines_example :
    Refines read8 get8
    × Refines read16 get16
    × Refines read32 get32
    × Refines read_string get_string
    × Refines (read_msgpack ⦃m = one_byte⦄) (get_msgpack ⦃m = one_byte⦄)
    × Refines check_empty get_end
methods-Refines_example = methods-Refines {Obj = ℕ} ⦃m = one_byte⦄

append_msgpack-render_example :
    append_msgpack {Obj = ℕ} (codes "x = ") 7 ≡ ok (codes "x = " ++ render (pair 7))
unfolding IsSmall count
append_msgpack-render_example =
    append_msgpack-render 7 (pair 7) (codes "x = ") refl (omega arith, (tt, (tt, tt)))

unescape-escape_all_example :
    unescape 4 (escape_all (b'a' ∷ b'"' ∷ 7 ∷ []) ++ b'"' ∷ b',' ∷ [])
    ≡ some (b'a' ∷ b'"' ∷ 7 ∷ [], b',' ∷ [])
unescape-escape_all_example =
    unescape-escape_all (b'a' ∷ b'"' ∷ 7 ∷ []) (b',' ∷ [])
      (omega arith, (omega arith, (omega arith, tt)))

zeros : ℕ → Bytes
zeros zero = []
zeros (suc n) = 0 ∷ zeros n
