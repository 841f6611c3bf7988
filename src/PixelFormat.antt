-- ===== src/PixelFormat.antt =====
-- device/src/pixel_format.rs: the pixel formats and their 32-bit codes.
pub mod Arms
pub mod Codes
pub mod RoundTrip

pub data PixelFormat : Type 0 where
  mono8 mono8s mono10 mono10_packed mono12 mono12_packed mono16 bayer_gr8 : PixelFormat
  bayer_rg8 bayer_gb8 bayer_bg8 bayer_gr10 bayer_rg10 bayer_gb10 bayer_bg10 : PixelFormat
  bayer_gr12 bayer_rg12 bayer_gb12 bayer_bg12 rgb8 bgr8 rgba8 bgra8 rgb10 bgr10 : PixelFormat
  rgb12 bgr12 yuv8_uyv rgb8_planar rgb10_planar rgb12_planar rgb16_planar : PixelFormat
  mono14 bayer_gr10_packed bayer_rg10_packed bayer_gb10_packed : PixelFormat
  bayer_bg10_packed bayer_gr12_packed bayer_rg12_packed bayer_gb12_packed : PixelFormat
  bayer_bg12_packed bayer_gr16 bayer_rg16 bayer_gb16 bayer_bg16 yuv422_8 rgb16 : PixelFormat
  rgb12_v1_packed rgb565p bgr565p mono1p mono2p mono4p ycb_cr8_cb_ycr : PixelFormat
  ycb_cr422_8 ycb_cr411_8_cb_yycr_yy ycb_cr601_8_cb_ycr ycb_cr601_422_8 : PixelFormat
  ycb_cr601_411_8_cb_yycr_yy ycb_cr709_8_cb_ycr ycb_cr709_422_8 : PixelFormat
  ycb_cr709_411_8_cb_yycr_yy ycb_cr422_8_cb_ycr_y ycb_cr601_422_8_cb_ycr_y : PixelFormat
  ycb_cr709_422_8_cb_ycr_y mono10p mono12p bgr10p bgr12p bgr14 bgr16 bgra10 : PixelFormat
  bgra10p bgra12 bgra12p bgra14 bgra16 bayer_bg10p bayer_bg12p bayer_gb10p : PixelFormat
  bayer_gb12p bayer_gr10p bayer_gr12p bayer_rg10p bayer_rg12p ycb_cr411_8 : PixelFormat
  ycb_cr8 rgb10p rgb12p rgb14 rgba10 rgba10p rgba12 rgba12p rgba14 rgba16 : PixelFormat
  ycb_cr422_10 ycb_cr422_12 scf1_wbwg8 scf1_wbwg10 scf1_wbwg10p scf1_wbwg12 : PixelFormat
  scf1_wbwg12p scf1_wbwg14 scf1_wbwg16 scf1_wgwb8 scf1_wgwb10 scf1_wgwb10p : PixelFormat
  scf1_wgwb12 scf1_wgwb12p scf1_wgwb14 scf1_wgwb16 scf1_wgwr8 scf1_wgwr10 : PixelFormat
  scf1_wgwr10p scf1_wgwr12 scf1_wgwr12p scf1_wgwr14 scf1_wgwr16 scf1_wrwg8 : PixelFormat
  scf1_wrwg10 scf1_wrwg10p scf1_wrwg12 scf1_wrwg12p scf1_wrwg14 scf1_wrwg16 : PixelFormat
  ycb_cr10_cb_ycr ycb_cr10p_cb_ycr ycb_cr12_cb_ycr ycb_cr12p_cb_ycr : PixelFormat
  ycb_cr422_10p ycb_cr422_12p ycb_cr601_10_cb_ycr ycb_cr601_10p_cb_ycr : PixelFormat
  ycb_cr601_12_cb_ycr ycb_cr601_12p_cb_ycr ycb_cr601_422_10 ycb_cr601_422_10p : PixelFormat
  ycb_cr601_422_12 ycb_cr601_422_12p ycb_cr709_10_cb_ycr ycb_cr709_10p_cb_ycr : PixelFormat
  ycb_cr709_12_cb_ycr ycb_cr709_12p_cb_ycr ycb_cr709_422_10 ycb_cr709_422_10p : PixelFormat
  ycb_cr709_422_12 ycb_cr709_422_12p ycb_cr422_10_cb_ycr_y : PixelFormat
  ycb_cr422_10p_cb_ycr_y ycb_cr422_12_cb_ycr_y ycb_cr422_12p_cb_ycr_y : PixelFormat
  ycb_cr601_422_10_cb_ycr_y ycb_cr601_422_10p_cb_ycr_y : PixelFormat
  ycb_cr601_422_12_cb_ycr_y ycb_cr601_422_12p_cb_ycr_y : PixelFormat
  ycb_cr709_422_10_cb_ycr_y ycb_cr709_422_10p_cb_ycr_y : PixelFormat
  ycb_cr709_422_12_cb_ycr_y ycb_cr709_422_12p_cb_ycr_y bi_color_rgbg8 : PixelFormat
  bi_color_bgrg8 bi_color_rgbg10 bi_color_rgbg10p bi_color_bgrg10 : PixelFormat
  bi_color_bgrg10p bi_color_rgbg12 bi_color_rgbg12p bi_color_bgrg12 : PixelFormat
  bi_color_bgrg12p coord3_d_a8 coord3_d_b8 coord3_d_c8 coord3_d_abc8 : PixelFormat
  coord3_d_abc8_planar coord3_d_ac8 coord3_d_ac8_planar coord3_d_a16 : PixelFormat
  coord3_d_b16 coord3_d_c16 coord3_d_abc16 coord3_d_abc16_planar coord3_d_ac16 : PixelFormat
  coord3_d_ac16_planar coord3_d_a32f coord3_d_b32f coord3_d_c32f : PixelFormat
  coord3_d_abc32f coord3_d_abc32f_planar coord3_d_ac32f coord3_d_ac32f_planar : PixelFormat
  confidence1 confidence1p confidence8 confidence16 confidence32f r8 r10 r12 : PixelFormat
  r16 g8 g10 g12 g16 b8 b10 b12 b16 coord3_d_a10p coord3_d_b10p coord3_d_c10p : PixelFormat
  coord3_d_a12p coord3_d_b12p coord3_d_c12p coord3_d_abc10p : PixelFormat
  coord3_d_abc10p_planar coord3_d_abc12p coord3_d_abc12p_planar coord3_d_ac10p : PixelFormat
  coord3_d_ac10p_planar coord3_d_ac12p coord3_d_ac12p_planar : PixelFormat
  ycb_cr2020_8_cb_ycr ycb_cr2020_10_cb_ycr ycb_cr2020_10p_cb_ycr : PixelFormat
  ycb_cr2020_12_cb_ycr ycb_cr2020_12p_cb_ycr ycb_cr2020_411_8_cb_yycr_yy : PixelFormat
  ycb_cr2020_422_8 ycb_cr2020_422_8_cb_ycr_y ycb_cr2020_422_10 : PixelFormat
  ycb_cr2020_422_10_cb_ycr_y ycb_cr2020_422_10p ycb_cr2020_422_10p_cb_ycr_y : PixelFormat
  ycb_cr2020_422_12 ycb_cr2020_422_12_cb_ycr_y ycb_cr2020_422_12p : PixelFormat
  ycb_cr2020_422_12p_cb_ycr_y mono14p bayer_gr14p bayer_rg14p bayer_gb14p : PixelFormat
  bayer_bg14p bayer_gr14 bayer_rg14 bayer_gb14 bayer_bg14 bayer_gr4p bayer_rg4p : PixelFormat
  bayer_gb4p bayer_bg4p mono32 ycb_cr420_8_yy_cb_cr_semiplanar : PixelFormat
  ycb_cr422_8_yy_cb_cr_semiplanar ycb_cr420_8_yy_cr_cb_semiplanar : PixelFormat
  ycb_cr422_8_yy_cr_cb_semiplanar data8 data8s data16 data16s data32 data32s : PixelFormat
  data32f data64 data64s data64f : PixelFormat
