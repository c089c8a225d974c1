-- ===== src/Schema/Keys/Names.antt =====
-- The column keys of common/schema/definition.go that the other modules name, by their place in the
-- list of constants.
use akvorado.Prelude.{ℕ}

abbrev pub time_received : ℕ
time_received = 1

abbrev pub sampling_rate : ℕ
sampling_rate = 2

abbrev pub etype : ℕ
etype = 3

abbrev pub proto : ℕ
proto = 4

abbrev pub bytes : ℕ
bytes = 5

abbrev pub packets : ℕ
packets = 6

abbrev pub forwarding_status : ℕ
forwarding_status = 9

abbrev pub flow_direction : ℕ
flow_direction = 10

abbrev pub exporter_address : ℕ
exporter_address = 11

abbrev pub exporter_name : ℕ
exporter_name = 12

abbrev pub exporter_group : ℕ
exporter_group = 13

abbrev pub exporter_role : ℕ
exporter_role = 14

abbrev pub exporter_site : ℕ
exporter_site = 15

abbrev pub exporter_region : ℕ
exporter_region = 16

abbrev pub exporter_tenant : ℕ
exporter_tenant = 17

abbrev pub src_addr : ℕ
src_addr = 18

abbrev pub dst_addr : ℕ
dst_addr = 19

abbrev pub src_net_mask : ℕ
src_net_mask = 20

abbrev pub dst_net_mask : ℕ
dst_net_mask = 21

abbrev pub src_as : ℕ
src_as = 24

abbrev pub dst_as : ℕ
dst_as = 25

abbrev pub src_vlan : ℕ
src_vlan = 26

abbrev pub dst_vlan : ℕ
dst_vlan = 27

abbrev pub src_port : ℕ
src_port = 28

abbrev pub dst_port : ℕ
dst_port = 29

abbrev pub src_net_name : ℕ
src_net_name = 30

abbrev pub dst_net_name : ℕ
dst_net_name = 31

abbrev pub src_net_role : ℕ
src_net_role = 32

abbrev pub dst_net_role : ℕ
dst_net_role = 33

abbrev pub src_net_site : ℕ
src_net_site = 34

abbrev pub dst_net_site : ℕ
dst_net_site = 35

abbrev pub src_net_region : ℕ
src_net_region = 36

abbrev pub dst_net_region : ℕ
dst_net_region = 37

abbrev pub src_net_tenant : ℕ
src_net_tenant = 38

abbrev pub dst_net_tenant : ℕ
dst_net_tenant = 39

abbrev pub src_country : ℕ
src_country = 40

abbrev pub dst_country : ℕ
dst_country = 41

abbrev pub src_geo_state : ℕ
src_geo_state = 42

abbrev pub dst_geo_state : ℕ
dst_geo_state = 43

abbrev pub src_geo_city : ℕ
src_geo_city = 44

abbrev pub dst_geo_city : ℕ
dst_geo_city = 45

abbrev pub dst_as_path : ℕ
dst_as_path = 46

abbrev pub src_communities : ℕ
src_communities = 50

abbrev pub src_large_communities : ℕ
src_large_communities = 51

abbrev pub dst_communities : ℕ
dst_communities = 52

abbrev pub dst_large_communities : ℕ
dst_large_communities = 53

abbrev pub in_if_name : ℕ
in_if_name = 54

abbrev pub out_if_name : ℕ
out_if_name = 55

abbrev pub in_if_description : ℕ
in_if_description = 56

abbrev pub out_if_description : ℕ
out_if_description = 57

abbrev pub in_if_speed : ℕ
in_if_speed = 58

abbrev pub out_if_speed : ℕ
out_if_speed = 59

abbrev pub in_if_provider : ℕ
in_if_provider = 60

abbrev pub out_if_provider : ℕ
out_if_provider = 61

abbrev pub in_if_connectivity : ℕ
in_if_connectivity = 62

abbrev pub out_if_connectivity : ℕ
out_if_connectivity = 63

abbrev pub in_if_boundary : ℕ
in_if_boundary = 64

abbrev pub out_if_boundary : ℕ
out_if_boundary = 65

abbrev pub src_addr_nat : ℕ
src_addr_nat = 66

abbrev pub dst_addr_nat : ℕ
dst_addr_nat = 67

abbrev pub src_port_nat : ℕ
src_port_nat = 68

abbrev pub dst_port_nat : ℕ
dst_port_nat = 69

abbrev pub src_mac : ℕ
src_mac = 70

abbrev pub dst_mac : ℕ
dst_mac = 71

abbrev pub ip_ttl : ℕ
ip_ttl = 72

abbrev pub ip_tos : ℕ
ip_tos = 73

abbrev pub ip_fragment_id : ℕ
ip_fragment_id = 74

abbrev pub ip_fragment_offset : ℕ
ip_fragment_offset = 75

abbrev pub ipv6_flow_label : ℕ
ipv6_flow_label = 76

abbrev pub tcp_flags : ℕ
tcp_flags = 77

abbrev pub icmpv4_type : ℕ
icmpv4_type = 79

abbrev pub icmpv4_code : ℕ
icmpv4_code = 80

abbrev pub icmpv6_type : ℕ
icmpv6_type = 82

abbrev pub icmpv6_code : ℕ
icmpv6_code = 83

abbrev pub next_hop : ℕ
next_hop = 84

abbrev pub mpls_labels : ℕ
mpls_labels = 85

abbrev pub ingress_vrf_id : ℕ
ingress_vrf_id = 90

abbrev pub egress_vrf_id : ℕ
egress_vrf_id = 91
