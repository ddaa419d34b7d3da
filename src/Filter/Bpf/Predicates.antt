-- ===== src/Filter/Bpf/Predicates.antt =====
-- src/core/filter_engine.c, extract_bpf_from_expr: the predicates of pcap-filter(7) that it writes.
use nblex.Base.{
  true, ◌++◌, Option, none, some, ◌≡◌, refl, sym, arith, ◌||◌, Bool-cases, inl, inr, if◌then◌else◌,
}
use mathlib.Core.Path.{subst}
use nblex.Base.Int.{ℤ}
use nblex.Filter.{FilterOp, op_eq, FilterValue, int_val, float_val, string_val, FilterExpr}
use nblex.Filter.Bpf.{temp_size, fit, port, protocol, host, extract_bpf_from_expr}
use nblex.Runtime.{Runtime}
use nblex.Text.{Bytes, codes, str_eq, str_eq→eq}
use nblex.Text.Number.{print_integer}

module _ {J R X : Type 0} (rt : Runtime J R X) where
  -- the predicate of pcap-filter(7) that says that a field of the packet has this value
  pub data Names : Bytes → FilterValue R → Bytes → Type 0 where
    dst_port :
        (n : ℤ)
        → Names (codes "network.dst_port") (int_val n) (codes "dst port " ++ print_integer n)
    src_port :
        (n : ℤ)
        → Names (codes "network.src_port") (int_val n) (codes "src port " ++ print_integer n)
    real_dst_port :
        (r : R)
        → Names
            (codes "network.dst_port")
            (float_val r)
            (codes "dst port " ++ print_integer (rt.real_to_int r))
    real_src_port :
        (r : R)
        → Names
            (codes "network.src_port")
            (float_val r)
            (codes "src port " ++ print_integer (rt.real_to_int r))
    tcp : Names (codes "network.protocol") (string_val (codes "tcp")) (codes "tcp")
    udp : Names (codes "network.protocol") (string_val (codes "udp")) (codes "udp")
    icmp : Names (codes "network.protocol") (string_val (codes "icmp")) (codes "icmp")
    src_host : (s : Bytes) → Names (codes "network.src_ip") (string_val s) (codes "src host " ++ s)
    dst_host : (s : Bytes) → Names (codes "network.dst_ip") (string_val s) (codes "dst host " ++ s)

  -- what a text that is extracted stands for
  abbrev pub Extracted : Bytes → FilterOp → FilterValue R → Bytes → Type 0
  Extracted field op v p =
      (op ≡ op_eq) × ((text : Bytes) × (Names field v text × (p ≡ fit temp_size text)))

  port-Extracted :
      (prefix field : Bytes) (op : FilterOp) (v : FilterValue R) (p : Bytes)
      → ((n : ℤ) → Names field (int_val n) (prefix ++ print_integer n))
      → ((r : R) → Names field (float_val r) (prefix ++ print_integer (rt.real_to_int r)))
      → port rt prefix op v ≡ some p
      → Extracted field op v p
  unfolding port
  port-Extracted prefix field op_eq (int_val n) p i r h = (refl, (_, (i n, cc)))
  port-Extracted prefix field op_eq (float_val x) p i r h = (refl, (_, (r x, cc)))
  port-Extracted prefix field _ v p i r h = let no : none ≡ some p = h in cc

  host-Extracted :
      (prefix field : Bytes) (op : FilterOp) (v : FilterValue R) (p : Bytes)
      → ((s : Bytes) → Names field (string_val s) (prefix ++ s))
      → host rt prefix op v ≡ some p
      → Extracted field op v p
  unfolding host
  host-Extracted prefix field op_eq (string_val s) p i h = (refl, (_, (i s, cc)))
  host-Extracted prefix field _ v p i h = let no : none ≡ some p = h in cc

  protocol-Names :
      (s : Bytes)
      → (str_eq s (codes "tcp") || str_eq s (codes "udp") || str_eq s (codes "icmp")) ≡ true
      → Names (codes "network.protocol") (string_val s) s
  protocol-Names s h = elim (Bool-cases (str_eq s (codes "tcp"))) [
    | inl e ↦ subst IsNamed (sym (str_eq→eq s (codes "tcp") e)) tcp
    | inr e ↦ elim (Bool-cases (str_eq s (codes "udp"))) [
      | inl e' ↦ subst IsNamed (sym (str_eq→eq s (codes "udp") e')) udp
      | inr e' ↦
          let e'' : str_eq s (codes "icmp") ≡ true = ground (arith, h, e, e') in
          subst IsNamed (sym (str_eq→eq s (codes "icmp") e'')) icmp
    ]
  ]
    where
      IsNamed : Bytes → Type 0
      IsNamed t = Names (codes "network.protocol") (string_val t) t

  protocol-Extracted :
      (op : FilterOp) (v : FilterValue R) (p : Bytes)
      → protocol rt op v ≡ some p
      → Extracted (codes "network.protocol") op v p
  unfolding protocol
  protocol-Extracted op_eq (string_val s) p h =
      elim (Bool-cases
        (str_eq s (codes "tcp") || str_eq s (codes "udp") || str_eq s (codes "icmp"))) [
          | inl e ↦
              let made : some (fit temp_size s) ≡ some p = rw e at h in
              (refl, (s, (protocol-Names s e, cc)))
          | inr e ↦ let no : none ≡ some p = rw e at h in cc
        ]
  protocol-Extracted _ v p h = let no : none ≡ some p = h in cc

  no_text :
      (field : Bytes) (op : FilterOp) (v : FilterValue R) (p : Bytes)
      → none ≡ some p
      → Extracted field op v p
  no_text field op v p h = cc

  at_field :
      (field name : Bytes) (op : FilterOp) (v : FilterValue R) (p : Bytes)
      (here others : Option Bytes)
      → (here ≡ some p → Extracted name op v p)
      → (others ≡ some p → Extracted field op v p)
      → (if str_eq field name then here else others) ≡ some p
      → Extracted field op v p
  at_field field name op v p here others f g h = elim (Bool-cases (str_eq field name)) [
    | inl e ↦ subst (λ t. Extracted t op v p) (sym (str_eq→eq field name e)) (f (rw e at h))
    | inr e ↦ g (rw e at h)
  ]

  pub extract-Extracted :
      (e : FilterExpr R X) (p : Bytes)
      → extract_bpf_from_expr rt e ≡ some p
      → Extracted e.field e.op e.value p
  unfolding extract_bpf_from_expr
  extract-Extracted e p =
      let no = no_text e.field e.op e.value p in
      at_field e.field (codes "network.dst_port") e.op e.value p _ _
        (port-Extracted (codes "dst port ") _ e.op e.value p dst_port real_dst_port)
        (at_field e.field (codes "network.src_port") e.op e.value p _ _
          (port-Extracted (codes "src port ") _ e.op e.value p src_port real_src_port)
          (at_field e.field (codes "network.protocol") e.op e.value p _ _
            (protocol-Extracted e.op e.value p)
            (at_field e.field (codes "network.src_ip") e.op e.value p _ _
              (host-Extracted (codes "src host ") _ e.op e.value p src_host)
              (at_field e.field (codes "network.dst_ip") e.op e.value p _ _
                (host-Extracted (codes "dst host ") _ e.op e.value p dst_host) no))))
