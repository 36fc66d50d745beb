-- ===== src/Flow/Table/Normal.antt =====
-- The normalization of flow ids, src/flow_table.cpp.
use fdpi.Base.{◌≡◌, arith}
use fdpi.Address.{ip_eq_iff, ip_gt_asymm, ip_gt_total}
use fdpi.Flow.{FlowId, reverse}
use fdpi.Flow.Table.{should_swap, normalize}

-- The two directions of a conversation have the same key.
pub normalize-reverse : (id : FlowId) → normalize (reverse id) ≡ normalize id
unfolding normalize should_swap reverse
normalize-reverse id = ground (
  arith,
  ip_eq_iff id.src_ip id.dst_ip,
  ip_eq_iff id.dst_ip id.src_ip,
  ip_gt_asymm id.src_ip id.dst_ip,
  ip_gt_asymm id.dst_ip id.src_ip,
  ip_gt_total id.src_ip id.dst_ip,
)

pub normalize_idem : (id : FlowId) → normalize (normalize id) ≡ normalize id
unfolding normalize should_swap
normalize_idem id = ground (
  arith,
  ip_eq_iff id.src_ip id.dst_ip,
  ip_eq_iff id.dst_ip id.src_ip,
  ip_gt_asymm id.src_ip id.dst_ip,
  ip_gt_asymm id.dst_ip id.src_ip,
  ip_gt_total id.src_ip id.dst_ip,
)
