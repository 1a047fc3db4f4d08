-- ===== src/Binary/Protocol/Tests.antt =====
-- A remote call at a concrete tree: an object at the root has the methods `greet` and `add`, and they
-- know nothing beside the number of calls.
use bomba.Base.{
  ℕ, zero, suc, ◌<◌, [], ◌∷◌, ◌++◌, Bytes, Option, none, some, length, length-append, take, true,
  ◌-◌, ◌^◌, ap, sym, ◌≡◌, ◌≢◌, refl, arith, append-nil,
}
use bomba.Base.Int.{ℤ, pos, negsuc}
use bomba.Base.Outcome.{M, ok}
use bomba.Base.Text.{codes}
use bomba.Binary.Input.{Input}
use bomba.Binary.Output.{Output}
use bomba.Binary.Protocol.{Protocol, Client, respond}
use bomba.Binary.Protocol.Request.{IsTree, Leads, here, below, path_bytes}
use bomba.Binary.Protocol.Reply.{message, length-message, IsSize, Answers, length-path_bytes}
use bomba.Binary.Protocol.Calls.{Called, Reads, remote_call, respond-part}
use bomba.Core.Callable.{Callables}
use bomba.Core.Flags.{uint_16}
use bomba.Core.Tcp.{read_on}

abbrev protocol : Protocol
protocol = record {
  fp = record { pattern = λ t v. 0; integer_of = λ t n. pos 0 };
  size_type = uint_16;
  sizes = pos 0 ∷ pos 0 ∷ pos 0 ∷ [];
}

data Callable : Type 0 where
  object greet add : Callable

abbrev parent_of : Callable → Option Callable
parent_of object = none
parent_of greet = some object
parent_of add = some object

abbrev child_of : Callable → ℤ → Option Callable
child_of object (pos zero) = some greet
child_of object (pos (suc zero)) = some add
child_of _ _ = none

abbrev name_of : Callable → Callable → Option (Bytes × ℤ)
name_of object greet = some (codes "greet", pos 0)
name_of object add = some (codes "add", pos 1)
name_of _ _ = none

-- A call reads nothing, writes `!` and counts itself.
abbrev callables : Callables Output Input Callable ℕ
callables = record {
  parent = parent_of;
  get_child = child_of;
  child_name = name_of;
  call = λ n introduce_result introduce_error s.
      let (i, o, w) = s in ok true (i, o ++ codes "!", suc w);
}

child_of-parent_of : (n c : Callable) (i : ℤ) → child_of n i ≡ some c → parent_of c ≡ some n
child_of-parent_of object greet i h = refl
child_of-parent_of object add i h = refl
child_of-parent_of object object (pos zero) h = cc
child_of-parent_of object object (pos (suc zero)) h = cc
child_of-parent_of object object (pos (suc (suc n))) h = cc
child_of-parent_of object object (negsuc n) h = cc
child_of-parent_of greet c i h = cc
child_of-parent_of add c i h = cc

not_child : (n : ℕ) → child_of object (pos (suc n)) ≢ some greet
not_child zero h = cc
not_child (suc n) h = cc

child_of-name_of :
    (n c : Callable) (i : ℤ)
    → child_of n i ≡ some c
    → (name : Bytes) × (name_of n c ≡ some (name, i))
child_of-name_of object greet (pos zero) h = (codes "greet", refl)
child_of-name_of object add (pos (suc zero)) h = (codes "add", refl)
child_of-name_of object greet (pos (suc n)) h = absurd (not_child n h)
child_of-name_of object greet (negsuc n) h = absurd (cc)
child_of-name_of object add (pos zero) h = absurd (cc)
child_of-name_of object add (pos (suc (suc n))) h = absurd (cc)
child_of-name_of object add (negsuc n) h = absurd (cc)
child_of-name_of object object (pos zero) h = absurd (cc)
child_of-name_of object object (pos (suc zero)) h = absurd (cc)
child_of-name_of object object (pos (suc (suc n))) h = absurd (cc)
child_of-name_of object object (negsuc n) h = absurd (cc)
child_of-name_of greet _ _ h = absurd (cc)
child_of-name_of add _ _ h = absurd (cc)

callables-IsTree : IsTree protocol callables
callables-IsTree = record { parent_of = child_of-parent_of; index_of = child_of-name_of }

add-Leads : Leads protocol callables object (pos 1 ∷ []) add
add-Leads = below (pos 1) (omega arith) refl refl here

add-Answers : Answers protocol callables add [] (codes "!") 7 8
add-Answers i o rest h = (i, refl, omega arith)

abbrev count_reply : M (Input × ℕ) (Unit {0})
count_reply s = let (i, n) = s in ok tt (i, suc n)

count_reply-Reads : Reads protocol count_reply (codes "!") 0 1
count_reply-Reads i rest h = (i, refl)

abbrev client : Client
client = record { send_order = 2 ^ 32 - 1; requests = [] }

message-IsSize :
    (id : ℤ) (body : Bytes)
    → length body < 100
    → IsSize protocol (length (message protocol id body))
message-IsSize id body h = ground (arith, h, length-message protocol id body)

remote_call_example :
    Called protocol callables 3 object add
      (λ token o. ok tt o)
      count_reply
      client
      (codes "more")
      []
      []
      7
      8
      0
      1
remote_call_example =
    remote_call protocol callables 3 (λ token o. ok tt o) count_reply client [] (codes "!")
      (codes "more") [] [] 7 8 0 1 callables-IsTree refl add-Leads (omega arith) refl (omega arith)
      (message-IsSize (pos (2 ^ 32 - 1)) (path_bytes protocol callables (pos 1 ∷ []) ++ []) (
        omega (
          arith,
          length-append (path_bytes protocol callables (pos 1 ∷ [])) [],
          length-path_bytes protocol callables (pos 1 ∷ []),
        )))
      (message-IsSize (pos (2 ^ 32 - 1)) (codes "!") (omega arith))
      (λ o. ap (λ l. ok tt l) (sym (append-nil o))) add-Answers count_reply-Reads

respond-part_example :
    respond protocol callables object (take 7 (message protocol (pos 5) (codes "ab"))) ([], 7)
    ≡ ok (read_on, 0) ([], 7)
respond-part_example =
    respond-part protocol callables object 5 (codes "ab") [] 7 7 (omega arith)
      (message-IsSize (pos 5) (codes "ab") (omega arith))
      (omega (arith, length-message protocol (pos 5) (codes "ab")))
