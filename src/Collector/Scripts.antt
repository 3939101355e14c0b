-- ===== src/Collector/Scripts.antt =====
-- internal/collector/scripts.go and collector.go: the scripts that a collection runs on a machine.
use frpilot.Prelude.{String, List, [], ◌∷◌}
use frpilot.Prelude.Text.{◌⧺◌}

-- A script from its lines.
unfoldable pub unlines : List String → String
unlines [] = ""
unlines (l ∷ []) = l
unlines (l ∷ m ∷ ls) = l ⧺ "\n" ⧺ unlines (m ∷ ls)

-- fastScript
unfoldable pub fast_script : String
unfolding unlines
fast_script = unlines (
    "" ∷ "echo \"===HOSTNAME===\"; hostname 2>/dev/null"
    ∷ "echo \"===UPTIME===\"; uptime 2>/dev/null || cat /proc/uptime 2>/dev/null"
    ∷ "echo \"===OS===\"; grep '^PRETTY_NAME' /etc/os-release 2>/dev/null || echo unknown"
    ∷ "echo \"===KERNEL===\"; uname -r 2>/dev/null"
    ∷ "echo \"===CPUCORES===\"; nproc 2>/dev/null || grep -c '^processor' /proc/cpuinfo 2>/dev/null"
    ∷ "echo \"===LOAD===\"; cat /proc/loadavg 2>/dev/null"
    ∷ "echo \"===MEM===\"; grep -E '^(MemTotal|MemFree|MemAvailable):' /proc/meminfo 2>/dev/null"
    ∷ "echo \"===STAT===\"; grep '^cpu ' /proc/stat 2>/dev/null"
    ∷ "echo \"===DISK===\"; df -kP 2>/dev/null | grep -vE '^(tmpfs|devtmpfs|overlay|shm|udev)'"
    ∷ "echo \"===NET===\"; cat /proc/net/dev 2>/dev/null" ∷ "" ∷ [])

-- trySecurity
unfoldable pub security_script : String
unfolding unlines
security_script = unlines (
    "" ∷ "for svc in clamav-daemon clamav-freshclam crowdsec fail2ban ufw; do"
    ∷ "  if systemctl list-unit-files --type=service \"$svc.service\" 2>/dev/null | grep -q \"$svc\"; then"
    ∷ "    st=$(systemctl is-active \"$svc\" 2>/dev/null); echo \"ACTIVE $svc|$st\""
    ∷ "  elif [ -x /usr/sbin/$svc ] || [ -x /usr/bin/$svc ] || command -v $svc >/dev/null 2>&1; then"
    ∷ "    st=$(systemctl is-active \"$svc\" 2>/dev/null || echo unknown); echo \"ACTIVE $svc|$st\""
    ∷ "  else" ∷ "    echo \"MISSING $svc\"" ∷ "  fi" ∷ "done"
    ∷ "# rkhunter 是 cron 定时扫描型工具（非守护进程），按检查新鲜度判定"
    ∷ "if [ -x /usr/bin/rkhunter ] || [ -x /usr/sbin/rkhunter ] || command -v rkhunter >/dev/null 2>&1; then"
    ∷ "  echo \"ACTIVE rkhunter|scheduled\""
    ∷ "  if [ -f /etc/cron.daily/rkhunter ] || [ -f /etc/cron.weekly/rkhunter ] || [ -f /etc/cron.d/rkhunter ]; then"
    ∷ "    echo \"EXTRA rkhunter cron:配置存在\"" ∷ "  fi"
    ∷ "  last=$(stat -c %Y /var/log/rkhunter.log 2>/dev/null || echo 0)"
    ∷ "  if [ \"$last\" != \"0\" ] && [ -n \"$last\" ]; then"
    ∷ "    days=$(( ( $(date +%s) - last ) / 86400 ))"
    ∷ "    echo \"EXTRA rkhunter 上次检查:${days}天前\"" ∷ "  else" ∷ "    echo \"EXTRA rkhunter 无检查日志\""
    ∷ "  fi" ∷ "else" ∷ "  echo \"MISSING rkhunter\"" ∷ "fi"
    ∷ "cs=$(clamscan --version 2>/dev/null | head -1); [ -n \"$cs\" ] && echo \"VER clamav-daemon $cs\""
    ∷ "f2b=$(fail2ban-client status 2>/dev/null | grep -oP 'banned IP count:\\s*\\K\\d+' | awk '{s+=$1} END {print s+0}'); [ -n \"$f2b\" ] && echo \"COUNT fail2ban $f2b\""
    ∷ "csc=$(cscli decisions list 2>/dev/null | tail -n +3 | wc -l); [ -n \"$csc\" ] && echo \"COUNT crowdsec $csc\""
    ∷ "ufw=$(ufw status 2>/dev/null | head -1); [ -n \"$ufw\" ] && echo \"EXTRA ufw $ufw\"" ∷ ""
    ∷ [])

-- tryCron
unfoldable pub cron_script : String
unfolding unlines
cron_script = unlines (
    "" ∷ "echo \"SOURCE >root\""
    ∷ "crontab -l 2>/dev/null | while IFS= read -r l; do [ -n \"$l\" ] && echo \"CRON root $l\"; done"
    ∷ "echo \"SOURCE >/etc/crontab\""
    ∷ "while IFS= read -r l; do [ -n \"$l\" ] && [ -z \"${l##*[![:space:]]*}\" ] && echo \"CRON root $l\"; done < /etc/crontab 2>/dev/null"
    ∷ "for f in /etc/cron.d/*; do [ -f \"$f\" ] && { echo \"SOURCE >$f\"; while IFS= read -r l; do [ -n \"$l\" ] && echo \"CRON root $l\"; done < \"$f\"; }; done"
    ∷ "for d in /etc/cron.hourly /etc/cron.daily /etc/cron.weekly /etc/cron.monthly; do"
    ∷ "  for f in \"$d\"/*; do [ -f \"$f\" ] && echo \"FILE $f\"; done" ∷ "done"
    ∷ "for u in $(awk -F: '$7 ~ /(bash|sh|zsh)$/ {print $1}' /etc/passwd); do"
    ∷ "  ul=$(crontab -l -u \"$u\" 2>/dev/null)" ∷ "  if [ -n \"$ul\" ]; then"
    ∷ "    echo \"SOURCE >user:$u\""
    ∷ "    echo \"$ul\" | while IFS= read -r l; do [ -n \"$l\" ] && echo \"CRON $u $l\"; done"
    ∷ "  fi" ∷ "done"
    ∷ "systemctl list-timers --all --no-pager 2>/dev/null | awk 'NR>1 && NF>=5 {print \"TIMER \"$NF\" (\"$1\" \"$2\")\"}'"
    ∷ "" ∷ [])

-- tryGPU
abbrev pub gpu_command : String
gpu_command =
    "nvidia-smi --query-gpu=name,utilization.gpu,memory.used,memory.total,temperature.gpu,power.draw --format=csv,noheader,nounits 2>/dev/null || echo NO_GPU"

-- tryPorts
abbrev pub ports_command : String
ports_command = "ss -tlnp 2>/dev/null"
