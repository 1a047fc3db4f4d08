-- ===== src/Core/Tests.antt =====
-- The theorems on buffers and paths at concrete inputs.
use bomba.Base.{
  ◌∷◌, [], List, Bytes, ◌||◌, bytes_eq, Option, some, none, if◌then◌else◌, ◌≡◌, refl, arith,
}
use mathlib.Core.List.{cons-ne-nil}
use bomba.Base.Outcome.{ok}
use bomba.Base.Text.{codes}
use bomba.Core.Buffer.{Buffer, Streaming, flush, new_streaming}
use bomba.Core.Buffer.HandedOn.{append_each, joined, flush-append_each}
use bomba.Core.Path.{find_callable, construct_path}
use bomba.Core.Path.RoundTrip.{descend, find_callable-construct_path}

abbrev pieces : List Bytes
pieces = codes "hello" ∷ codes "" ∷ codes ", wide world" ∷ []

flush-append_each_example :
    (b : Buffer Streaming) × (append_each 4 pieces (new_streaming 4) ≡ ok tt b)
    × ((flush b).own.sent ≡ joined pieces)
flush-append_each_example = flush-append_each 4 pieces (omega arith) (omega arith)

-- A tree in which every callable has the children "api" and "get".
abbrev child_of : List Bytes → Bytes → Option (List Bytes)
child_of names name =
    if bytes_eq name (codes "api") || bytes_eq name (codes "get") then some (name ∷ names) else none

abbrev names_of : List Bytes
names_of = codes "get" ∷ codes "api" ∷ []

find_callable-construct_path_example :
    find_callable child_of b'/' (construct_path b'/' names_of) []
    ≡ descend child_of b'/' [] names_of
find_callable-construct_path_example = find_callable-construct_path child_of b'/' [] names_of (
  (cons-ne-nil b'g' (codes "et"), (refl, (refl, (refl, tt)))),
  ((cons-ne-nil b'a' (codes "pi"), (refl, (refl, (refl, tt)))), tt),
)
