-- ===== src/Beacon.antt =====
-- beacon/beacon.go: the type Beacon and FromEvent. The other functions of the file are in the
-- modules below.

pub mod Number
pub mod Fields
pub mod Convert
pub mod Laws
pub mod Decompress
mod Tests
use front_basicrum_go.Base.{Bytes, [], Bool, codes}
use front_basicrum_go.Types.{Event}
use front_basicrum_go.Values.{get, has}

pub record Beacon : Type 0 where
  pub mob_etype : Bytes
  pub mob_dl : Bytes
  pub mob_rtt : Bytes
  pub pt_lcp : Bytes
  pub pt_fp : Bytes
  pub pt_fcp : Bytes
  pub c_e : Bytes
  pub c_l : Bytes
  pub c_lb : Bytes
  pub c_tti_m : Bytes
  pub c_tti : Bytes
  pub c_tti_vr : Bytes
  pub c_t_fps : Bytes
  pub c_f : Bytes
  pub c_f_d : Bytes
  pub c_f_m : Bytes
  pub c_f_l : Bytes
  pub c_f_s : Bytes
  pub c_cls : Bytes
  pub c_fid : Bytes
  pub et_fid : Bytes
  pub et_e : Bytes
  pub rt_start : Bytes
  pub rt_bmr : Bytes
  pub rt_tstart : Bytes
  pub rt_bstart : Bytes
  pub rt_blstart : Bytes
  pub rt_end : Bytes
  pub rt_tt : Bytes
  pub rt_obo : Bytes
  pub rt_si : Bytes
  pub rt_ss : Bytes
  pub rt_sl : Bytes
  pub rt_quit : Bool
  pub u : Bytes
  pub t_resp : Bytes
  pub t_page : Bytes
  pub t_done : Bytes
  pub t_other : Bytes
  pub v : Bytes
  pub restiming : Bytes
  pub created_at : Bytes
  pub sv : Bytes
  pub sm : Bytes
  pub vis_st : Bytes
  pub ua_plt : Bytes
  pub ua_vnd : Bytes
  pub pid : Bytes
  pub n : Bytes
  pub http_initiator : Bytes
  pub nt_nav_st : Bytes
  pub nt_fet_st : Bytes
  pub nt_dns_st : Bytes
  pub nt_dns_end : Bytes
  pub nt_con_st : Bytes
  pub nt_con_end : Bytes
  pub nt_req_st : Bytes
  pub nt_res_st : Bytes
  pub nt_res_end : Bytes
  pub nt_domloading : Bytes
  pub nt_domint : Bytes
  pub nt_domcontloaded_st : Bytes
  pub nt_domcontloaded_end : Bytes
  pub nt_domcomp : Bytes
  pub nt_load_st : Bytes
  pub nt_load_end : Bytes
  pub nt_unload_st : Bytes
  pub nt_unload_end : Bytes
  pub nt_ssl_st : Bytes
  pub nt_enc_size : Bytes
  pub nt_dec_size : Bytes
  pub nt_trn_size : Bytes
  pub nt_protocol : Bytes
  pub nt_first_paint : Bytes
  pub nt_red_cnt : Bytes
  pub nt_nav_type : Bytes
  pub dom_res : Bytes
  pub dom_doms : Bytes
  pub mem_total : Bytes
  pub mem_limit : Bytes
  pub mem_used : Bytes
  pub mem_lsln : Bytes
  pub mem_ssln : Bytes
  pub mem_lssz : Bytes
  pub mem_sssz : Bytes
  pub scr_xy : Bytes
  pub scr_bpp : Bytes
  pub scr_orn : Bytes
  pub cpu_cnc : Bytes
  pub dom_ln : Bytes
  pub dom_sz : Bytes
  pub dom_ck : Bytes
  pub dom_img : Bytes
  pub dom_img_uniq : Bytes
  pub dom_script : Bytes
  pub dom_script_ext : Bytes
  pub dom_iframe : Bytes
  pub dom_link : Bytes
  pub dom_link_css : Bytes
  pub net_sd : Bytes
  pub sb : Bytes
  pub up : Bytes
  pub latency : Bytes
  pub status_code : Bytes
  pub cdir : Bytes
  pub ans : Bytes

-- The literal of FromEvent over `values.Get` and `values.Has`. A field that the literal does not
-- name has its zero value.
unfoldable pub beacon_of : (Bytes → Bytes) → (Bytes → Bool) → Beacon
beacon_of get has = record {
  mob_etype = get (codes "mob.etype");
  mob_dl = get (codes "mob.dl");
  mob_rtt = get (codes "mob.rtt");
  pt_lcp = get (codes "pt.lcp");
  pt_fp = get (codes "pt.fp");
  pt_fcp = get (codes "pt.fcp");
  c_e = get (codes "c.e");
  c_l = [];
  c_lb = [];
  c_tti_m = get (codes "c.tti.m");
  c_tti = get (codes "c.tti");
  c_tti_vr = get (codes "c.tti.vr");
  c_t_fps = get (codes "c.t.fps");
  c_f = get (codes "c.f");
  c_f_d = get (codes "c.f.d");
  c_f_m = get (codes "c.f.m");
  c_f_l = [];
  c_f_s = get (codes "c.f.s");
  c_cls = get (codes "c.cls");
  c_fid = get (codes "c.fid");
  et_fid = get (codes "et.fid");
  et_e = get (codes "et.e");
  rt_start = get (codes "navigation");
  rt_bmr = get (codes "rt.bmr");
  rt_tstart = get (codes "rt.tstart");
  rt_bstart = get (codes "rt.bstart");
  rt_blstart = get (codes "rt.blstart");
  rt_end = get (codes "rt.end");
  rt_tt = get (codes "rt.tt");
  rt_obo = get (codes "rt.obo");
  rt_si = get (codes "rt.si");
  rt_ss = get (codes "rt.ss");
  rt_sl = get (codes "rt.sl");
  rt_quit = has (codes "rt.quit");
  u = get (codes "u");
  t_resp = get (codes "t_resp");
  t_page = get (codes "t_page");
  t_done = get (codes "t_done");
  t_other = get (codes "t_other");
  v = get (codes "v");
  restiming = get (codes "restiming");
  created_at = get (codes "created_at");
  sv = get (codes "sv");
  sm = get (codes "sm");
  vis_st = get (codes "vis.st");
  ua_plt = get (codes "ua.plt");
  ua_vnd = get (codes "ua.vnd");
  pid = get (codes "pid");
  n = get (codes "n");
  http_initiator = get (codes "http_initiator");
  nt_nav_st = get (codes "nt_nav_st");
  nt_fet_st = get (codes "nt_fet_st");
  nt_dns_st = get (codes "nt_dns_st");
  nt_dns_end = get (codes "nt_dns_end");
  nt_con_st = get (codes "nt_con_st");
  nt_con_end = get (codes "nt_con_end");
  nt_req_st = get (codes "nt_req_st");
  nt_res_st = get (codes "nt_res_st");
  nt_res_end = get (codes "nt_res_end");
  nt_domloading = get (codes "nt_domloading");
  nt_domint = get (codes "nt_domint");
  nt_domcontloaded_st = get (codes "nt_domcontloaded_st");
  nt_domcontloaded_end = get (codes "nt_domcontloaded_end");
  nt_domcomp = get (codes "nt_domcomp");
  nt_load_st = get (codes "nt_load_st");
  nt_load_end = get (codes "nt_load_end");
  nt_unload_st = get (codes "nt_unload_st");
  nt_unload_end = get (codes "nt_unload_end");
  nt_ssl_st = get (codes "nt_ssl_st");
  nt_enc_size = get (codes "nt_enc_size");
  nt_dec_size = get (codes "nt_dec_size");
  nt_trn_size = get (codes "nt_trn_size");
  nt_protocol = get (codes "nt_protocol");
  nt_first_paint = get (codes "nt_first_paint");
  nt_red_cnt = get (codes "nt_red_cnt");
  nt_nav_type = get (codes "nt_nav_type");
  dom_res = get (codes "dom.res");
  dom_doms = get (codes "dom.doms");
  mem_total = get (codes "mem.total");
  mem_limit = get (codes "mem.limit");
  mem_used = get (codes "mem.used");
  mem_lsln = get (codes "mem.lsln");
  mem_ssln = get (codes "mem.ssln");
  mem_lssz = get (codes "mem.lssz");
  mem_sssz = get (codes "mem.sssz");
  scr_xy = get (codes "scr.xy");
  scr_bpp = get (codes "scr.bpp");
  scr_orn = get (codes "scr.orn");
  cpu_cnc = get (codes "cpu.cnc");
  dom_ln = get (codes "dom.ln");
  dom_sz = get (codes "dom.sz");
  dom_ck = get (codes "dom.ck");
  dom_img = get (codes "dom.img");
  dom_img_uniq = get (codes "dom.img.uniq");
  dom_script = get (codes "dom.script");
  dom_script_ext = get (codes "dom.script.ext");
  dom_iframe = get (codes "dom.iframe");
  dom_link = get (codes "dom.link");
  dom_link_css = get (codes "dom.link.css");
  net_sd = get (codes "net.sd");
  sb = get (codes "sb");
  up = get (codes "up");
  latency = get (codes "latency");
  status_code = get (codes "status_code");
  cdir = get (codes "cdir");
  ans = get (codes "ans");
}

unfoldable pub from_event : Event → Beacon
from_event event = beacon_of (get event.request_parameters) (has event.request_parameters)
