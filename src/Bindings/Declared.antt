-- ===== src/Bindings/Declared.antt =====
-- Which message types the registry knows.
use grpc_gateway_rust.Prelude.{
  ℕ, ◌+◌, ◌≡◌, Bool-cases, inl, inr, Option, some, List, Str, Map, lookup, insert, lookup-insert,
  lookup-insert_self, ◌⊎◌, str_eq,
}
use grpc_gateway_rust.Bindings.Descriptors.{
  DescriptorProto, message, DescriptorProtos, no_messages, more_messages,
}
use grpc_gateway_rust.Bindings.Registry.{
  CommentMap, MessageDocs, full_name_of, process_message, process_messages,
}

-- `k` is the full name of a message or of one that is nested in it, in a scope.
mutual
  pub data Declares : DescriptorProto → Str → Str → Type 0 where
    itself :
        {name : Option Str} {fs : _} {nested : DescriptorProtos} {scope : Str}
        → Declares (message name fs nested) scope (full_name_of scope name)
    inside :
        {name : Option Str} {fs : _} {nested : DescriptorProtos} {scope k : Str}
        → DeclaresOne nested (full_name_of scope name) k
        → Declares (message name fs nested) scope k

  pub data DeclaresOne : DescriptorProtos → Str → Str → Type 0 where
    first_of :
        {m : DescriptorProto} {ms : DescriptorProtos} {scope k : Str}
        → Declares m scope k
        → DeclaresOne (more_messages m ms) scope k
    later_of :
        {m : DescriptorProto} {ms : DescriptorProtos} {scope k : Str}
        → DeclaresOne ms scope k
        → DeclaresOne (more_messages m ms) scope k

abbrev pub IsKnown : Str → Map MessageDocs → Type 0
IsKnown k messages = (d : MessageDocs) × (lookup k messages ≡ some d)

insert-IsKnown :
    (j k : Str) (d : MessageDocs) (messages : Map MessageDocs)
    → IsKnown k messages
    → IsKnown k (insert j d messages)
insert-IsKnown j k d messages (e, found) = elim (Bool-cases (str_eq j k)) [
  | inl same ↦ (d, rw (lookup-insert j k d messages, same))
  | inr other ↦ (e, rw (lookup-insert j k d messages, other) found)
]

module _ (comments : CommentMap) (file : Str) where
  mutual
    unfolding process_message

    keeps_message :
        (m : DescriptorProto) (scope k : Str) (path : List ℕ) (messages : Map MessageDocs)
        → IsKnown k messages
        → IsKnown k (process_message comments file m scope path messages)
    keeps_message (message name fs nested) scope k path messages h =
        keeps_messages nested (full_name_of scope name) k _ 0 _ (insert-IsKnown _ k _ messages h)

    keeps_messages :
        (ms : DescriptorProtos) (scope k : Str) (path : List ℕ) (i : ℕ) (messages : Map MessageDocs)
        → IsKnown k messages
        → IsKnown k (process_messages comments file ms scope path i messages)
    keeps_messages no_messages scope k path i messages h = h
    keeps_messages (more_messages m ms) scope k path i messages h =
        keeps_messages ms scope k path (i + 1) _ (keeps_message m scope k _ messages h)

  mutual
    unfolding process_message

    knows_message :
        {m : DescriptorProto} {scope k : Str}
        → Declares m scope k
        → (path : List ℕ) (messages : Map MessageDocs)
        → IsKnown k (process_message comments file m scope path messages)
    knows_message (itself {name} {fs} {nested} {scope}) path messages =
        keeps_messages nested (full_name_of scope name) _ _ 0 _
          (_, lookup-insert_self (full_name_of scope name) _ messages)
    knows_message (inside d) path messages = knows_messages d _ 0 _

    knows_messages :
        {ms : DescriptorProtos} {scope k : Str}
        → DeclaresOne ms scope k
        → (path : List ℕ) (i : ℕ) (messages : Map MessageDocs)
        → IsKnown k (process_messages comments file ms scope path i messages)
    knows_messages (first_of {m} {ms} {scope} {k} d) path i messages =
        keeps_messages ms scope k path (i + 1) _ (knows_message d _ messages)
    knows_messages (later_of d) path i messages = knows_messages d path (i + 1) _

-- After the messages of a scope were processed, the registry knows every message that they declare,
-- nested ones included, under its full name, and every message that it knew before.
pub process_messages-IsKnown :
    (comments : CommentMap) (file : Str) (ms : DescriptorProtos) (scope k : Str) (path : List ℕ)
    (i : ℕ) (messages : Map MessageDocs)
    → DeclaresOne ms scope k ⊎ IsKnown k messages
    → IsKnown k (process_messages comments file ms scope path i messages)
process_messages-IsKnown comments file ms scope k path i messages (inl declared) =
    knows_messages comments file declared path i messages
process_messages-IsKnown comments file ms scope k path i messages (inr known) =
    keeps_messages comments file ms scope k path i messages known
