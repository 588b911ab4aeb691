-- ===== src/Log/Sample.antt =====
-- A state of the log for the runs: a UART, no framebuffer, and a font.
use quin_kernel_template.Base.{false}
use quin_kernel_template.Framebuffer.{Console, Font}
use quin_kernel_template.Serial.Sample.{Line, idle}
use quin_kernel_template.Log.{Log, info}

abbrev pub bar : Font
bar ch row = 1

abbrev pub off : Console
off = record {
  fb = record {
    address = 0;
    width = 0;
    height = 0;
    pitch = 0;
    bpp = 0;
    red_mask_size = 0;
    red_mask_shift = 0;
    green_mask_size = 0;
    green_mask_shift = 0;
    blue_mask_size = 0;
    blue_mask_shift = 0;
  };
  fb_ready = false;
  bytes_per_pixel = 0;
  console_cols = 0;
  console_rows = 0;
  cursor_col = 0;
  cursor_row = 0;
}

abbrev pub log : Log Line
log = record { min_level = info; current_fb_color = 0; serial = idle; mem = λ a. 0; console = off }
