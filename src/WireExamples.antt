-- ===== src/WireExamples.antt =====
-- Packed structs and a first byte, written and read back on concrete inputs.
use new_efp.Wire.Headers.{FrameType1, FrameType2, FrameType3, NackEntry}
use new_efp.Wire.Rtt.{RttProbe, RttResponse}

abbrev header1 : FrameType1
header1 = record {
  frame_type = 1;
  stream_id = 7;
  super_frame_no = 5;
  fragment_no = 0;
  of_fragment_no = 2;
}

abbrev header2 : FrameType2
header2 = record {
  frame_type = 2;
  stream_id = 7;
  payload_type = 1;
  size_of_data = 2;
  super_frame_no = 5;
  of_fragment_no = 2;
  type1_packet_size = 3;
  pts = 1000;
  dts_pts_diff = 10;
  payload_code = 77;
}

abbrev header3 : FrameType3
header3 = record {
  frame_type = 3;
  stream_id = 7;
  super_frame_no = 5;
  type1_packet_size = 3;
  of_fragment_no = 2;
}

abbrev nack_entry : NackEntry
nack_entry = record { stream_id = 7; super_frame_no = 5; fragment_no = 1; fragment_count = 0 }

abbrev probe : RttProbe
probe = record { frame_type = 0; subtype = 2; sequence_no = 5; timestamp_us = 1000 }

abbrev response : RttResponse
response = record {
  frame_type = 0;
  subtype = 3;
  sequence_no = 5;
  timestamp_us = 1000;
  receiver_time_us = 1500;
}
