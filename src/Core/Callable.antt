-- ===== src/Core/Callable.antt =====
-- bomba_core.hpp, IRemoteCallable and the types of the remote calls: a tree of callables.
use bomba.Base.{ℕ, Bool, Bytes, Option}
use bomba.Base.Int.{ℤ}
use bomba.Base.Outcome.{M}

-- The virtual methods of a callable, over a format's writer and reader and what the callables
-- themselves change. An index is an int, a null pointer is `none`, and so is the exception that
-- `childName` throws. `call` is given the functors for the result and for an error message.
pub record Callables (O I Node W : Type 0) : Type 0 where
  pub parent : Node → Option Node
  pub get_child : Node → ℤ → Option Node
  pub child_name : Node → Node → Option (Bytes × ℤ)
  pub call : Node → M O (Unit {0}) → (Bytes → M O (Unit {0})) → M (I × O × W) Bool

-- The `id` of a RequestToken is a `uint32_t`.
abbrev pub RequestToken : Type 0
RequestToken = ℕ
