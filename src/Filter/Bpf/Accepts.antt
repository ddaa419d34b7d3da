-- ===== src/Filter/Bpf/Accepts.antt =====
-- What the packet filter of libpcap makes of the BPF text, and what that means for the packets whose
-- events the filter accepts. libpcap is not modelled: `takes` says which texts take one packet, and
-- `BpfReads` what pcap-filter(7) promises of it.
use nblex.Base.{Bool, true, ◌++◌, ◌≡◌}
use nblex.Filter.{op_eq, FilterExpr, evaluate_filter_expr}
use nblex.Filter.Bpf.Predicates.{Names}
use nblex.Runtime.{Runtime}
use nblex.Text.{Bytes, codes}

module _ {J R X : Type 0} (rt : Runtime J R X) where
  -- The predicate of a field's value takes the packet whose event has that value, and a text takes
  -- a packet when both sides of its `and` do.
  pub record BpfReads (event : J) (takes : Bytes → Bool) : Type 0 where
    pub comparison :
        (e : FilterExpr R X) (text : Bytes)
        → Names rt e.field e.value text
        → e.op ≡ op_eq
        → evaluate_filter_expr rt e event ≡ true
        → takes text ≡ true
    pub both :
        (s p : Bytes) → takes s ≡ true → takes p ≡ true → takes (s ++ (codes " and " ++ p)) ≡ true
