-- ===== src/Decode/Layers.antt =====
-- `PacketDecoder::decode` of src/decoder.cpp from the link layer to the payload.
use fdpi.Base.{ℕ, Bool, true, false, none, some, [], length, drop, ◌==◌, if◌then◌else◌}
use fdpi.Wire.{Bytes, Outcome, ok, err, buffer_too_small, and_then}
use fdpi.Link.{DataLinkType}
use fdpi.Defrag.{Groups}
use fdpi.Decode.{Layer3, no_layer3, Layer4, no_layer4, esp, Linked}
use fdpi.Decode.Link.{link_layer, mpls_layer}
use fdpi.Decode.Network.{Inner, transport, final, network_layer, gre_layer}
use fdpi.Decode.Transport.{transport_layer}
use fdpi.Decode.Tunnels.{vxlan, gtp_u}

-- What becomes of the packet after its layers: it is returned as it is, it is counted in the flow
-- table, or its payload is looked into as well.
pub data Follow : Type 0 where
  returned counted inspected : Follow

pub record Layers : Type 0 where
  pub linked : Linked
  pub layer3 : Layer3
  pub layer4 : Layer4
  pub payload : Bytes
  pub groups : Groups
  pub follow : Follow

unfoldable pub is_esp : Layer4 → Bool
is_esp (esp _) = true
is_esp _ = false

-- An encrypted payload ends the packet; a tunnel may set the layers anew.
unfoldable pub upper_layers : Linked → Groups → Layer3 → Layer4 → Bytes → ℕ → Outcome Layers
upper_layers linked groups layer3 layer4 data' offset =
    if is_esp layer4
    then ok
        (record {
          linked = linked;
          layer3 = layer3;
          layer4 = layer4;
          payload = drop offset data';
          groups = groups;
          follow = counted;
        })
        offset
    else and_then (vxlan (record { layer3 = layer3; layer4 = layer4 }) data' offset) λ upper o.
      and_then (gtp_u upper data' o) λ upper' o'.
        ok
          (record {
            linked = linked;
            layer3 = upper'.layer3;
            layer4 = upper'.layer4;
            payload = drop o' data';
            groups = groups;
            follow = inspected;
          })
          o'

-- A packet that is returned before its transport layer.
abbrev pub early : Linked → Groups → Layer3 → Bytes → Layers
early linked groups layer3 payload = record {
  linked = linked;
  layer3 = layer3;
  layer4 = no_layer4;
  payload = payload;
  groups = groups;
  follow = returned;
}

unfoldable pub from_inner : Linked → Groups → Inner → Bytes → ℕ → Outcome Layers
from_inner linked groups (final layer3 rest) data' offset =
    ok (early linked groups layer3 (if rest then drop offset data' else [])) offset
from_inner linked groups (transport layer3 protocol) data' offset =
    and_then (transport_layer protocol data' offset)
      λ layer4 o. upper_layers linked groups layer3 layer4 data' o

unfoldable pub higher_layers : Linked → Groups → Inner → Bytes → ℕ → Outcome Layers
higher_layers linked groups inner data' offset =
    and_then (gre_layer inner data' offset) λ inner' o. from_inner linked groups inner' data' o

-- The layers up to the network layer, with the fragments that are left. MPLS labels up to the end of
-- the buffer end the packet.
unfoldable pub lower_layers :
    Bool → Groups → DataLinkType → Bytes → Outcome (Linked × Inner × Groups)
lower_layers enable_defragmentation groups dlt data' =
    if length data' == 0
    then err buffer_too_small 0
    else (and_then (link_layer dlt data') λ linked o.
        and_then (mpls_layer data' linked.ether_type o) λ ether_type o'. elim ether_type [
          | none ↦ ok (linked, final no_layer3 true, groups) o'
          | some t ↦
              and_then (network_layer enable_defragmentation groups t data' o')
                λ r o''. ok (linked, r.0, r.1) o''
        ])
