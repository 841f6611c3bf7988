-- ===== src/PixelFormat/Arms.antt =====
-- device/src/pixel_format.rs: `TryFrom<u32> for PixelFormat`. The `match` is the list of its arms,
-- which are tried in order.
use cameleon.Prelude.{ℕ, List, [], ◌∷◌, Option, none, some, ◌==◌, if◌then◌else◌}
use cameleon.PixelFormat.{PixelFormat}
use cameleon.PixelFormat.{mono8, mono8s, mono10, mono10_packed, mono12, mono12_packed, mono16}
use cameleon.PixelFormat.{bayer_gr8, bayer_rg8, bayer_gb8, bayer_bg8, bayer_gr10, bayer_rg10}
use cameleon.PixelFormat.{bayer_gb10, bayer_bg10, bayer_gr12, bayer_rg12, bayer_gb12, bayer_bg12}
use cameleon.PixelFormat.{rgb8, bgr8, rgba8, bgra8, rgb10, bgr10, rgb12, bgr12, yuv8_uyv}
use cameleon.PixelFormat.{rgb8_planar, rgb10_planar, rgb12_planar, rgb16_planar, mono14}
use cameleon.PixelFormat.{bayer_gr10_packed, bayer_rg10_packed, bayer_gb10_packed}
use cameleon.PixelFormat.{bayer_bg10_packed, bayer_gr12_packed, bayer_rg12_packed}
use cameleon.PixelFormat.{bayer_gb12_packed, bayer_bg12_packed, bayer_gr16, bayer_rg16}
use cameleon.PixelFormat.{bayer_gb16, bayer_bg16, yuv422_8, rgb16, rgb12_v1_packed, rgb565p}
use cameleon.PixelFormat.{bgr565p, mono1p, mono2p, mono4p, ycb_cr8_cb_ycr, ycb_cr422_8}
use cameleon.PixelFormat.{ycb_cr411_8_cb_yycr_yy, ycb_cr601_8_cb_ycr, ycb_cr601_422_8}
use cameleon.PixelFormat.{ycb_cr601_411_8_cb_yycr_yy, ycb_cr709_8_cb_ycr, ycb_cr709_422_8}
use cameleon.PixelFormat.{ycb_cr709_411_8_cb_yycr_yy, ycb_cr422_8_cb_ycr_y}
use cameleon.PixelFormat.{ycb_cr601_422_8_cb_ycr_y, ycb_cr709_422_8_cb_ycr_y, mono10p, mono12p}
use cameleon.PixelFormat.{bgr10p, bgr12p, bgr14, bgr16, bgra10, bgra10p, bgra12, bgra12p, bgra14}
use cameleon.PixelFormat.{bgra16, bayer_bg10p, bayer_bg12p, bayer_gb10p, bayer_gb12p, bayer_gr10p}
use cameleon.PixelFormat.{bayer_gr12p, bayer_rg10p, bayer_rg12p, ycb_cr411_8, ycb_cr8, rgb10p}
use cameleon.PixelFormat.{rgb12p, rgb14, rgba10, rgba10p, rgba12, rgba12p, rgba14, rgba16}
use cameleon.PixelFormat.{ycb_cr422_10, ycb_cr422_12, scf1_wbwg8, scf1_wbwg10, scf1_wbwg10p}
use cameleon.PixelFormat.{scf1_wbwg12, scf1_wbwg12p, scf1_wbwg14, scf1_wbwg16, scf1_wgwb8}
use cameleon.PixelFormat.{scf1_wgwb10, scf1_wgwb10p, scf1_wgwb12, scf1_wgwb12p, scf1_wgwb14}
use cameleon.PixelFormat.{scf1_wgwb16, scf1_wgwr8, scf1_wgwr10, scf1_wgwr10p, scf1_wgwr12}
use cameleon.PixelFormat.{scf1_wgwr12p, scf1_wgwr14, scf1_wgwr16, scf1_wrwg8, scf1_wrwg10}
use cameleon.PixelFormat.{scf1_wrwg10p, scf1_wrwg12, scf1_wrwg12p, scf1_wrwg14, scf1_wrwg16}
use cameleon.PixelFormat.{ycb_cr10_cb_ycr, ycb_cr10p_cb_ycr, ycb_cr12_cb_ycr, ycb_cr12p_cb_ycr}
use cameleon.PixelFormat.{ycb_cr422_10p, ycb_cr422_12p, ycb_cr601_10_cb_ycr, ycb_cr601_10p_cb_ycr}
use cameleon.PixelFormat.{ycb_cr601_12_cb_ycr, ycb_cr601_12p_cb_ycr, ycb_cr601_422_10}
use cameleon.PixelFormat.{ycb_cr601_422_10p, ycb_cr601_422_12, ycb_cr601_422_12p}
use cameleon.PixelFormat.{ycb_cr709_10_cb_ycr, ycb_cr709_10p_cb_ycr, ycb_cr709_12_cb_ycr}
use cameleon.PixelFormat.{ycb_cr709_12p_cb_ycr, ycb_cr709_422_10, ycb_cr709_422_10p}
use cameleon.PixelFormat.{ycb_cr709_422_12, ycb_cr709_422_12p, ycb_cr422_10_cb_ycr_y}
use cameleon.PixelFormat.{ycb_cr422_10p_cb_ycr_y, ycb_cr422_12_cb_ycr_y, ycb_cr422_12p_cb_ycr_y}
use cameleon.PixelFormat.{ycb_cr601_422_10_cb_ycr_y, ycb_cr601_422_10p_cb_ycr_y}
use cameleon.PixelFormat.{ycb_cr601_422_12_cb_ycr_y, ycb_cr601_422_12p_cb_ycr_y}
use cameleon.PixelFormat.{ycb_cr709_422_10_cb_ycr_y, ycb_cr709_422_10p_cb_ycr_y}
use cameleon.PixelFormat.{ycb_cr709_422_12_cb_ycr_y, ycb_cr709_422_12p_cb_ycr_y, bi_color_rgbg8}
use cameleon.PixelFormat.{bi_color_bgrg8, bi_color_rgbg10, bi_color_rgbg10p, bi_color_bgrg10}
use cameleon.PixelFormat.{bi_color_bgrg10p, bi_color_rgbg12, bi_color_rgbg12p, bi_color_bgrg12}
use cameleon.PixelFormat.{bi_color_bgrg12p, coord3_d_a8, coord3_d_b8, coord3_d_c8, coord3_d_abc8}
use cameleon.PixelFormat.{coord3_d_abc8_planar, coord3_d_ac8, coord3_d_ac8_planar, coord3_d_a16}
use cameleon.PixelFormat.{coord3_d_b16, coord3_d_c16, coord3_d_abc16, coord3_d_abc16_planar}
use cameleon.PixelFormat.{coord3_d_ac16, coord3_d_ac16_planar, coord3_d_a32f, coord3_d_b32f}
use cameleon.PixelFormat.{coord3_d_c32f, coord3_d_abc32f, coord3_d_abc32f_planar, coord3_d_ac32f}
use cameleon.PixelFormat.{coord3_d_ac32f_planar, confidence1, confidence1p, confidence8}
use cameleon.PixelFormat.{confidence16, confidence32f, r8, r10, r12, r16, g8, g10, g12, g16, b8}
use cameleon.PixelFormat.{b10, b12, b16, coord3_d_a10p, coord3_d_b10p, coord3_d_c10p}
use cameleon.PixelFormat.{coord3_d_a12p, coord3_d_b12p, coord3_d_c12p, coord3_d_abc10p}
use cameleon.PixelFormat.{coord3_d_abc10p_planar, coord3_d_abc12p, coord3_d_abc12p_planar}
use cameleon.PixelFormat.{coord3_d_ac10p, coord3_d_ac10p_planar, coord3_d_ac12p}
use cameleon.PixelFormat.{coord3_d_ac12p_planar, ycb_cr2020_8_cb_ycr, ycb_cr2020_10_cb_ycr}
use cameleon.PixelFormat.{ycb_cr2020_10p_cb_ycr, ycb_cr2020_12_cb_ycr, ycb_cr2020_12p_cb_ycr}
use cameleon.PixelFormat.{ycb_cr2020_411_8_cb_yycr_yy, ycb_cr2020_422_8}
use cameleon.PixelFormat.{ycb_cr2020_422_8_cb_ycr_y, ycb_cr2020_422_10}
use cameleon.PixelFormat.{ycb_cr2020_422_10_cb_ycr_y, ycb_cr2020_422_10p}
use cameleon.PixelFormat.{ycb_cr2020_422_10p_cb_ycr_y, ycb_cr2020_422_12}
use cameleon.PixelFormat.{ycb_cr2020_422_12_cb_ycr_y, ycb_cr2020_422_12p}
use cameleon.PixelFormat.{ycb_cr2020_422_12p_cb_ycr_y, mono14p, bayer_gr14p, bayer_rg14p}
use cameleon.PixelFormat.{bayer_gb14p, bayer_bg14p, bayer_gr14, bayer_rg14, bayer_gb14}
use cameleon.PixelFormat.{bayer_bg14, bayer_gr4p, bayer_rg4p, bayer_gb4p, bayer_bg4p, mono32}
use cameleon.PixelFormat.{ycb_cr420_8_yy_cb_cr_semiplanar, ycb_cr422_8_yy_cb_cr_semiplanar}
use cameleon.PixelFormat.{ycb_cr420_8_yy_cr_cb_semiplanar, ycb_cr422_8_yy_cr_cb_semiplanar, data8}
use cameleon.PixelFormat.{data8s, data16, data16s, data32, data32s, data32f, data64, data64s}
use cameleon.PixelFormat.{data64f}

unfoldable pub arms : List (ℕ × PixelFormat)
arms =
    (0x0108_0001, mono8)
    ∷ (0x0108_0002, mono8s)
    ∷ (0x0110_0003, mono10)
    ∷ (0x010C_0004, mono10_packed)
    ∷ (0x0110_0005, mono12)
    ∷ (0x010C_0006, mono12_packed)
    ∷ (0x0110_0007, mono16)
    ∷ (0x0108_0008, bayer_gr8)
    ∷ (0x0108_0009, bayer_rg8)
    ∷ (0x0108_000A, bayer_gb8)
    ∷ (0x0108_000B, bayer_bg8)
    ∷ (0x0110_000C, bayer_gr10)
    ∷ (0x0110_000D, bayer_rg10)
    ∷ (0x0110_000E, bayer_gb10)
    ∷ (0x0110_000F, bayer_bg10)
    ∷ (0x0110_0010, bayer_gr12)
    ∷ (0x0110_0011, bayer_rg12)
    ∷ (0x0110_0012, bayer_gb12)
    ∷ (0x0110_0013, bayer_bg12)
    ∷ (0x0218_0014, rgb8)
    ∷ (0x0218_0015, bgr8)
    ∷ (0x0220_0016, rgba8)
    ∷ (0x0220_0017, bgra8)
    ∷ (0x0230_0018, rgb10)
    ∷ (0x0230_0019, bgr10)
    ∷ (0x0230_001A, rgb12)
    ∷ (0x0230_001B, bgr12)
    ∷ (0x0218_0020, yuv8_uyv)
    ∷ (0x0218_0021, rgb8_planar)
    ∷ (0x0230_0022, rgb10_planar)
    ∷ (0x0230_0023, rgb12_planar)
    ∷ (0x0230_0024, rgb16_planar)
    ∷ (0x0110_0025, mono14)
    ∷ (0x010C_0026, bayer_gr10_packed)
    ∷ (0x010C_0027, bayer_rg10_packed)
    ∷ (0x010C_0028, bayer_gb10_packed)
    ∷ (0x010C_0029, bayer_bg10_packed)
    ∷ (0x010C_002A, bayer_gr12_packed)
    ∷ (0x010C_002B, bayer_rg12_packed)
    ∷ (0x010C_002C, bayer_gb12_packed)
    ∷ (0x010C_002D, bayer_bg12_packed)
    ∷ (0x0110_002E, bayer_gr16)
    ∷ (0x0110_002F, bayer_rg16)
    ∷ (0x0110_0030, bayer_gb16)
    ∷ (0x0110_0031, bayer_bg16)
    ∷ (0x0210_0032, yuv422_8)
    ∷ (0x0230_0033, rgb16)
    ∷ (0x0224_0034, rgb12_v1_packed)
    ∷ (0x0210_0035, rgb565p)
    ∷ (0x0210_0036, bgr565p)
    ∷ (0x0101_0037, mono1p)
    ∷ (0x0102_0038, mono2p)
    ∷ (0x0104_0039, mono4p)
    ∷ (0x0218_003A, ycb_cr8_cb_ycr)
    ∷ (0x0210_003B, ycb_cr422_8)
    ∷ (0x020C_003C, ycb_cr411_8_cb_yycr_yy)
    ∷ (0x0218_003D, ycb_cr601_8_cb_ycr)
    ∷ (0x0210_003E, ycb_cr601_422_8)
    ∷ (0x020C_003F, ycb_cr601_411_8_cb_yycr_yy)
    ∷ (0x0218_0040, ycb_cr709_8_cb_ycr)
    ∷ (0x0210_0041, ycb_cr709_422_8)
    ∷ (0x020C_0042, ycb_cr709_411_8_cb_yycr_yy)
    ∷ (0x0210_0043, ycb_cr422_8_cb_ycr_y)
    ∷ (0x0210_0044, ycb_cr601_422_8_cb_ycr_y)
    ∷ (0x0210_0045, ycb_cr709_422_8_cb_ycr_y)
    ∷ (0x010A_0046, mono10p)
    ∷ (0x010C_0047, mono12p)
    ∷ (0x021E_0048, bgr10p)
    ∷ (0x0224_0049, bgr12p)
    ∷ (0x0230_004A, bgr14)
    ∷ (0x0230_004B, bgr16)
    ∷ (0x0240_004C, bgra10)
    ∷ (0x0228_004D, bgra10p)
    ∷ (0x0240_004E, bgra12)
    ∷ (0x0230_004F, bgra12p)
    ∷ (0x0240_0050, bgra14)
    ∷ (0x0240_0051, bgra16)
    ∷ (0x010A_0052, bayer_bg10p)
    ∷ (0x010C_0053, bayer_bg12p)
    ∷ (0x010A_0054, bayer_gb10p)
    ∷ (0x010C_0055, bayer_gb12p)
    ∷ (0x010A_0056, bayer_gr10p)
    ∷ (0x010C_0057, bayer_gr12p)
    ∷ (0x010A_0058, bayer_rg10p)
    ∷ (0x010C_0059, bayer_rg12p)
    ∷ (0x020C_005A, ycb_cr411_8)
    ∷ (0x0218_005B, ycb_cr8)
    ∷ (0x021E_005C, rgb10p)
    ∷ (0x0224_005D, rgb12p)
    ∷ (0x0230_005E, rgb14)
    ∷ (0x0240_005F, rgba10)
    ∷ (0x0228_0060, rgba10p)
    ∷ (0x0240_0061, rgba12)
    ∷ (0x0230_0062, rgba12p)
    ∷ (0x0240_0063, rgba14)
    ∷ (0x0240_0064, rgba16)
    ∷ (0x0220_0065, ycb_cr422_10)
    ∷ (0x0220_0066, ycb_cr422_12)
    ∷ (0x0108_0067, scf1_wbwg8)
    ∷ (0x0110_0068, scf1_wbwg10)
    ∷ (0x010A_0069, scf1_wbwg10p)
    ∷ (0x0110_006A, scf1_wbwg12)
    ∷ (0x010C_006B, scf1_wbwg12p)
    ∷ (0x0110_006C, scf1_wbwg14)
    ∷ (0x0110_006D, scf1_wbwg16)
    ∷ (0x0108_006E, scf1_wgwb8)
    ∷ (0x0110_006F, scf1_wgwb10)
    ∷ (0x010A_0070, scf1_wgwb10p)
    ∷ (0x0110_0071, scf1_wgwb12)
    ∷ (0x010C_0072, scf1_wgwb12p)
    ∷ (0x0110_0073, scf1_wgwb14)
    ∷ (0x0110_0074, scf1_wgwb16)
    ∷ (0x0108_0075, scf1_wgwr8)
    ∷ (0x0110_0076, scf1_wgwr10)
    ∷ (0x010A_0077, scf1_wgwr10p)
    ∷ (0x0110_0078, scf1_wgwr12)
    ∷ (0x010C_0079, scf1_wgwr12p)
    ∷ (0x0110_007A, scf1_wgwr14)
    ∷ (0x0110_007B, scf1_wgwr16)
    ∷ (0x0108_007C, scf1_wrwg8)
    ∷ (0x0110_007D, scf1_wrwg10)
    ∷ (0x010A_007E, scf1_wrwg10p)
    ∷ (0x0110_007F, scf1_wrwg12)
    ∷ (0x010C_0080, scf1_wrwg12p)
    ∷ (0x0110_0081, scf1_wrwg14)
    ∷ (0x0110_0082, scf1_wrwg16)
    ∷ (0x0230_0083, ycb_cr10_cb_ycr)
    ∷ (0x021E_0084, ycb_cr10p_cb_ycr)
    ∷ (0x0230_0085, ycb_cr12_cb_ycr)
    ∷ (0x0224_0086, ycb_cr12p_cb_ycr)
    ∷ (0x0214_0087, ycb_cr422_10p)
    ∷ (0x0218_0088, ycb_cr422_12p)
    ∷ (0x0230_0089, ycb_cr601_10_cb_ycr)
    ∷ (0x021E_008A, ycb_cr601_10p_cb_ycr)
    ∷ (0x0230_008B, ycb_cr601_12_cb_ycr)
    ∷ (0x0224_008C, ycb_cr601_12p_cb_ycr)
    ∷ (0x0220_008D, ycb_cr601_422_10)
    ∷ (0x0214_008E, ycb_cr601_422_10p)
    ∷ (0x0220_008F, ycb_cr601_422_12)
    ∷ (0x0218_0090, ycb_cr601_422_12p)
    ∷ (0x0230_0091, ycb_cr709_10_cb_ycr)
    ∷ (0x021E_0092, ycb_cr709_10p_cb_ycr)
    ∷ (0x0230_0093, ycb_cr709_12_cb_ycr)
    ∷ (0x0224_0094, ycb_cr709_12p_cb_ycr)
    ∷ (0x0220_0095, ycb_cr709_422_10)
    ∷ (0x0214_0096, ycb_cr709_422_10p)
    ∷ (0x0220_0097, ycb_cr709_422_12)
    ∷ (0x0218_0098, ycb_cr709_422_12p)
    ∷ (0x0220_0099, ycb_cr422_10_cb_ycr_y)
    ∷ (0x0214_009A, ycb_cr422_10p_cb_ycr_y)
    ∷ (0x0220_009B, ycb_cr422_12_cb_ycr_y)
    ∷ (0x0218_009C, ycb_cr422_12p_cb_ycr_y)
    ∷ (0x0220_009D, ycb_cr601_422_10_cb_ycr_y)
    ∷ (0x0214_009E, ycb_cr601_422_10p_cb_ycr_y)
    ∷ (0x0220_009F, ycb_cr601_422_12_cb_ycr_y)
    ∷ (0x0218_00A0, ycb_cr601_422_12p_cb_ycr_y)
    ∷ (0x0220_00A1, ycb_cr709_422_10_cb_ycr_y)
    ∷ (0x0214_00A2, ycb_cr709_422_10p_cb_ycr_y)
    ∷ (0x0220_00A3, ycb_cr709_422_12_cb_ycr_y)
    ∷ (0x0218_00A4, ycb_cr709_422_12p_cb_ycr_y)
    ∷ (0x0210_00A5, bi_color_rgbg8)
    ∷ (0x0210_00A6, bi_color_bgrg8)
    ∷ (0x0220_00A7, bi_color_rgbg10)
    ∷ (0x0214_00A8, bi_color_rgbg10p)
    ∷ (0x0220_00A9, bi_color_bgrg10)
    ∷ (0x0214_00AA, bi_color_bgrg10p)
    ∷ (0x0220_00AB, bi_color_rgbg12)
    ∷ (0x0218_00AC, bi_color_rgbg12p)
    ∷ (0x0220_00AD, bi_color_bgrg12)
    ∷ (0x0218_00AE, bi_color_bgrg12p)
    ∷ (0x0108_00AF, coord3_d_a8)
    ∷ (0x0108_00B0, coord3_d_b8)
    ∷ (0x0108_00B1, coord3_d_c8)
    ∷ (0x0218_00B2, coord3_d_abc8)
    ∷ (0x0218_00B3, coord3_d_abc8_planar)
    ∷ (0x0210_00B4, coord3_d_ac8)
    ∷ (0x0210_00B5, coord3_d_ac8_planar)
    ∷ (0x0110_00B6, coord3_d_a16)
    ∷ (0x0110_00B7, coord3_d_b16)
    ∷ (0x0110_00B8, coord3_d_c16)
    ∷ (0x0230_00B9, coord3_d_abc16)
    ∷ (0x0230_00BA, coord3_d_abc16_planar)
    ∷ (0x0220_00BB, coord3_d_ac16)
    ∷ (0x0220_00BC, coord3_d_ac16_planar)
    ∷ (0x0120_00BD, coord3_d_a32f)
    ∷ (0x0120_00BE, coord3_d_b32f)
    ∷ (0x0120_00BF, coord3_d_c32f)
    ∷ (0x0260_00C0, coord3_d_abc32f)
    ∷ (0x0260_00C1, coord3_d_abc32f_planar)
    ∷ (0x0240_00C2, coord3_d_ac32f)
    ∷ (0x0240_00C3, coord3_d_ac32f_planar)
    ∷ (0x0108_00C4, confidence1)
    ∷ (0x0101_00C5, confidence1p)
    ∷ (0x0108_00C6, confidence8)
    ∷ (0x0110_00C7, confidence16)
    ∷ (0x0120_00C8, confidence32f)
    ∷ (0x0108_00C9, r8)
    ∷ (0x010A_00CA, r10)
    ∷ (0x010C_00CB, r12)
    ∷ (0x0110_00CC, r16)
    ∷ (0x0108_00CD, g8)
    ∷ (0x010A_00CE, g10)
    ∷ (0x010C_00CF, g12)
    ∷ (0x0110_00D0, g16)
    ∷ (0x0108_00D1, b8)
    ∷ (0x010A_00D2, b10)
    ∷ (0x010C_00D3, b12)
    ∷ (0x0110_00D4, b16)
    ∷ (0x010A_00D5, coord3_d_a10p)
    ∷ (0x010A_00D6, coord3_d_b10p)
    ∷ (0x010A_00D7, coord3_d_c10p)
    ∷ (0x010C_00D8, coord3_d_a12p)
    ∷ (0x010C_00D9, coord3_d_b12p)
    ∷ (0x010C_00DA, coord3_d_c12p)
    ∷ (0x021E_00DB, coord3_d_abc10p)
    ∷ (0x021E_00DC, coord3_d_abc10p_planar)
    ∷ (0x0224_00DE, coord3_d_abc12p)
    ∷ (0x0224_00DF, coord3_d_abc12p_planar)
    ∷ (0x0214_00F0, coord3_d_ac10p)
    ∷ (0x0214_00F1, coord3_d_ac10p_planar)
    ∷ (0x0218_00F2, coord3_d_ac12p)
    ∷ (0x0218_00F3, coord3_d_ac12p_planar)
    ∷ (0x0218_00F4, ycb_cr2020_8_cb_ycr)
    ∷ (0x0230_00F5, ycb_cr2020_10_cb_ycr)
    ∷ (0x021E_00F6, ycb_cr2020_10p_cb_ycr)
    ∷ (0x0230_00F7, ycb_cr2020_12_cb_ycr)
    ∷ (0x0224_00F8, ycb_cr2020_12p_cb_ycr)
    ∷ (0x020C_00F9, ycb_cr2020_411_8_cb_yycr_yy)
    ∷ (0x0210_00FA, ycb_cr2020_422_8)
    ∷ (0x0210_00FB, ycb_cr2020_422_8_cb_ycr_y)
    ∷ (0x0220_00FC, ycb_cr2020_422_10)
    ∷ (0x0220_00FD, ycb_cr2020_422_10_cb_ycr_y)
    ∷ (0x0214_00FE, ycb_cr2020_422_10p)
    ∷ (0x0214_00FF, ycb_cr2020_422_10p_cb_ycr_y)
    ∷ (0x0220_0100, ycb_cr2020_422_12)
    ∷ (0x0220_0101, ycb_cr2020_422_12_cb_ycr_y)
    ∷ (0x0218_0102, ycb_cr2020_422_12p)
    ∷ (0x0218_0103, ycb_cr2020_422_12p_cb_ycr_y)
    ∷ (0x010E_0104, mono14p)
    ∷ (0x010E_0105, bayer_gr14p)
    ∷ (0x010E_0106, bayer_rg14p)
    ∷ (0x010E_0107, bayer_gb14p)
    ∷ (0x010E_0108, bayer_bg14p)
    ∷ (0x0110_0109, bayer_gr14)
    ∷ (0x0110_010A, bayer_rg14)
    ∷ (0x0110_010B, bayer_gb14)
    ∷ (0x0110_010C, bayer_bg14)
    ∷ (0x0104_010D, bayer_gr4p)
    ∷ (0x0104_010E, bayer_rg4p)
    ∷ (0x0104_010F, bayer_gb4p)
    ∷ (0x0104_0110, bayer_bg4p)
    ∷ (0x0120_0111, mono32)
    ∷ (0x020C_0112, ycb_cr420_8_yy_cb_cr_semiplanar)
    ∷ (0x0210_0113, ycb_cr422_8_yy_cb_cr_semiplanar)
    ∷ (0x020C_0114, ycb_cr420_8_yy_cr_cb_semiplanar)
    ∷ (0x0210_0115, ycb_cr422_8_yy_cr_cb_semiplanar)
    ∷ (0x0108_0116, data8)
    ∷ (0x0108_0117, data8s)
    ∷ (0x0110_0118, data16)
    ∷ (0x0110_0119, data16s)
    ∷ (0x0120_011A, data32)
    ∷ (0x0120_011B, data32s)
    ∷ (0x0120_011C, data32f)
    ∷ (0x0140_011D, data64)
    ∷ (0x0140_011E, data64s)
    ∷ (0x0140_011F, data64f)
    ∷ []

unfoldable pub match_arms : ℕ → List (ℕ × PixelFormat) → Option PixelFormat
match_arms value [] = none
match_arms value ((code, format) ∷ rest) =
    if value == code then some format else match_arms value rest

-- The error is a text alone, so it is `none`.
unfoldable pub try_from : ℕ → Option PixelFormat
unfolding arms match_arms
try_from value = match_arms value arms
